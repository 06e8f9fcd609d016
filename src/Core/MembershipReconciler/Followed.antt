-- ===== src/Core/MembershipReconciler/Followed.antt =====
-- The handlers are told exactly what has changed.
use rtcforge.Map.{contains, contains-append}
use rtcforge.Prelude.{
  ℕ, zero, suc, ◌+◌, ◌<◌, Bool, true, false, not, ◌&&◌, ◌||◌, List, [], ◌∷◌, ◌++◌, none, some,
  String, ◌≡◌, refl, sym, ap, subst, ◌∙◌, arith, inl, inr, ◌===◌, length, text_key, Bool-cases,
  eq_of_same, same_of_eq, if_lem,
}
use rtcforge.Core.MembershipReconciler.{
  HandlerCall, on_add, on_update, on_remove, Snapshot, MembershipReconciler, Outcome, call,
  visit_one, visit, without, prune_one, prune, apply, sync, sync_pending,
}
use rtcforge.Core.MembershipReconciler.Passes.{
  Guards, Linked, unchanged, newer, Held, call-Undisturbed,
}

-- A follower of the calls: the ids that it has been told of.
unfoldable pub hear : HandlerCall → List String → List String
unfolding without
hear (on_add id) told = id ∷ told
hear (on_update id) told = told
hear (on_remove id) told = without id told

unfoldable pub follow : List HandlerCall → List String → List String
unfolding hear
follow [] told = told
follow (c ∷ calls) told = follow calls (hear c told)

follow-append :
    (cs ds : List HandlerCall) (told : List String)
    → follow (cs ++ ds) told ≡ follow ds (follow cs told)
unfolding follow
follow-append [] ds told = refl
follow-append (c ∷ cs) ds told = follow-append cs ds (hear c told)

contains-without :
    (id k : String) (xs : List String)
    → contains k (without id xs) ≡ (contains k xs && not (id === k))
unfolding without contains
contains-without id k [] = refl
contains-without id k (x ∷ xs) = ground (
  arith,
  contains-without id k xs,
  eq_of_same x id,
  eq_of_same x k,
  same_of_eq id k,
  same_of_eq x k,
  eq_of_same id k,
  same_of_eq x id,
)

-- Who follows the calls from the beginning knows the tracked ids.
pub record IsFollowed (s : MembershipReconciler) : Type 0 where
  pub told : (k : String) → contains k (follow s.calls []) ≡ contains k s.ids

-- A state within a pass, whose calls a follower has followed.
record Going (snapshot : Snapshot) (n : ℕ) (s : MembershipReconciler) : Type 0 where
  held : Held snapshot n s
  followed : IsFollowed s

module _ (sync_again : Snapshot → MembershipReconciler → Outcome) (guards : Guards sync_again)
    (snapshot : Snapshot) (n : ℕ) where
  -- A call that tells a follower of the ids what they have become.
  call-Going :
      (c : HandlerCall) (s : MembershipReconciler)
      → Held snapshot n s
      → ((k : String) → contains k (hear c (follow s.calls [])) ≡ contains k s.ids)
      → Going snapshot n (call sync_again c s).0
  unfolding follow
  call-Going c s v told =
      let done = call-Undisturbed sync_again guards snapshot n c s v in
      record {
        held = done.held;
        followed = record {
          told = λ k.
              ap (λ calls. contains k (follow calls [])) done.same_calls
              ∙ ap (contains k) (follow-append s.calls (c ∷ []) [])
              ∙ told k
              ∙ ap (contains k) (sym done.same_ids);
        };
      }

  call-ids :
      (c : HandlerCall) (s : MembershipReconciler)
      → Held snapshot n s
      → (call sync_again c s).0.ids ≡ s.ids
  call-ids c s v = (call-Undisturbed sync_again guards snapshot n c s v).same_ids

  visit_one-Going :
      (id : String) (s : MembershipReconciler)
      → Going snapshot n s
      → Going snapshot n (visit_one sync_again id s).0
        × ((k : String)
            → contains k (visit_one sync_again id s).0.ids ≡ (contains k s.ids || id === k))
  unfolding visit_one hear
  visit_one-Going id s v = elim (Bool-cases (contains id s.ids)) [
    | inl old ↦ rw old (
      call-Going (on_update id) s v.held v.followed.told,
      λ k.
          ap (contains k) (call-ids (on_update id) s v.held) ∙ ground (arith, old, eq_of_same id k),
    )
    | inr fresh ↦
        let more : MembershipReconciler = record s { ids = s.ids ++ (id ∷ []) } in
        let held : Held snapshot n more = record {
          busy = v.held.busy;
          fewer = v.held.fewer;
          link = v.held.link;
        } in
        let grown : (k : String) → contains k more.ids ≡ (contains k s.ids || id === k) =
          λ k. added k id s.ids in
        rw fresh (
          call-Going (on_add id) more held
              (λ k. heard k id (follow s.calls []) s.ids (v.followed.told k)),
          λ k. ap (contains k) (call-ids (on_add id) more held) ∙ grown k,
        )
  ]
    where
      added :
          (k id : String) (ids : List String)
          → contains k (ids ++ (id ∷ [])) ≡ (contains k ids || id === k)
      added k id ids = contains-append k ids (id ∷ []) ∙ one (contains k ids)
        where
          one : (b : Bool) → (b || contains k (id ∷ [])) ≡ (b || id === k)
          one b = unfold contains in ground arith

      heard :
          (k id : String) (told ids : List String)
          → contains k told ≡ contains k ids
          → contains k (id ∷ told) ≡ contains k (ids ++ (id ∷ []))
      heard k id told ids same = unfold contains in ground (arith, same, added k id ids)

  visit-Going :
      (nodes : List String) (s : MembershipReconciler)
      → Going snapshot n s
      → Going snapshot n (visit sync_again nodes s).0
        × ((visit sync_again nodes s).1 ≡ false
            → (k : String)
            → contains k (visit sync_again nodes s).0.ids ≡ (contains k s.ids || contains k nodes))
  unfolding visit contains
  visit-Going [] s v = (v, λ calm k. ground arith)
  visit-Going (id ∷ nodes) s v =
      let one = visit_one-Going id s v in
      let rest = visit-Going nodes (visit_one sync_again id s).0 one.0 in
      elim (Bool-cases (visit_one sync_again id s).1) [
        | inl threw ↦ rw threw (one.0, λ calm. absurd (ground (arith, threw, calm)))
        | inr calm ↦
            rw calm (rest.0, λ fine k. rest.1 fine k ∙ ground (arith, one.1 k, eq_of_same id k))
      ]

  prune_one-Going :
      (live : List String) (id : String) (s : MembershipReconciler)
      → Going snapshot n s
      → Going snapshot n (prune_one sync_again live id s).0
        × ((k : String)
            → contains k (prune_one sync_again live id s).0.ids
              ≡ (contains k s.ids && not (id === k && not (contains k live))))
  unfolding prune_one hear
  prune_one-Going live id s v = elim (Bool-cases (contains id live)) [
    | inl stays ↦ rw stays (v, λ k. ground (arith, stays, eq_of_same id k))
    | inr goes ↦
        let fewer : MembershipReconciler = record s { ids = without id s.ids } in
        let held : Held snapshot n fewer = record {
          busy = v.held.busy;
          fewer = v.held.fewer;
          link = v.held.link;
        } in
        rw goes (
          call-Going (on_remove id) fewer held (λ k.
              contains-without id k (follow s.calls [])
              ∙ ap (λ b. b && not (id === k)) (v.followed.told k)
              ∙ sym (contains-without id k s.ids)),
          λ k.
              ap (contains k) (call-ids (on_remove id) fewer held)
              ∙ contains-without id k s.ids
              ∙ ground (arith, goes, eq_of_same id k),
        )
  ]

  prune-Going :
      (live ids : List String) (s : MembershipReconciler)
      → Going snapshot n s
      → Going snapshot n (prune sync_again live ids s).0
        × ((prune sync_again live ids s).1 ≡ false
            → (k : String)
            → contains k (prune sync_again live ids s).0.ids
              ≡ (contains k s.ids && not (contains k ids && not (contains k live))))
  unfolding prune contains
  prune-Going live [] s v = (v, λ calm k. ground arith)
  prune-Going live (id ∷ ids) s v =
      let one = prune_one-Going live id s v in
      let rest = prune-Going live ids (prune_one sync_again live id s).0 one.0 in
      elim (Bool-cases (prune_one sync_again live id s).1) [
        | inl threw ↦ rw threw (one.0, λ calm. absurd (ground (arith, threw, calm)))
        | inr calm ↦ rw calm (rest.0, λ fine k. rest.1 fine k ∙ ground (arith, one.1 k))
      ]

-- The tracked ids hold those of the snapshot, and no others if it may remove.
pub record Tracks (last : Snapshot) (ids : List String) : Type 0 where
  pub all_added : (k : String) → contains k last.nodes ≡ true → contains k ids ≡ true
  pub exact : last.allow_remove ≡ true → (k : String) → contains k ids ≡ contains k last.nodes

module _ (sync_again : Snapshot → MembershipReconciler → Outcome) (guards : Guards sync_again)
    (snapshot : Snapshot) (n : ℕ) where
  apply-Going :
      (s : MembershipReconciler)
      → Going snapshot n s
      → Going snapshot n (apply sync_again snapshot s).0
        × ((apply sync_again snapshot s).1 ≡ false
            → Tracks snapshot (apply sync_again snapshot s).0.ids)
  unfolding apply
  apply-Going s v =
      let (going, added) = visit-Going sync_again guards snapshot n snapshot.nodes s v in
      let t = (visit sync_again snapshot.nodes s).0 in
      let (pruned, kept) = prune-Going sync_again guards snapshot n snapshot.nodes t.ids t going in
      if_lem (λ (o : Outcome). Going snapshot n o.0 × (o.1 ≡ false → Tracks snapshot o.0.ids))
        ((visit sync_again snapshot.nodes s).1 || not snapshot.allow_remove)
        (visit sync_again snapshot.nodes s) (prune sync_again snapshot.nodes t.ids t)
        (λ stops. (
          going,
          λ calm. record {
            all_added = λ k there. added calm k ∙ ground (arith, there);
            exact = λ may. absurd (ground (arith, may, stops, calm));
          },
        ))
        (λ goes_on.
          let calm : (visit sync_again snapshot.nodes s).1 ≡ false = ground (arith, goes_on) in
          (
            pruned,
            λ fine. record {
              all_added = λ k there. kept fine k ∙ ground (arith, added calm k, there);
              exact = λ may k. kept fine k ∙ ground (arith, added calm k);
            },
          ))

-- What a call of `_sync` comes to: it is over, a follower of the calls knows the ids, and, if no handler
-- has thrown, nothing waits and the ids are those of the snapshot that `_sync` was called with last.
pub record IsSynced (o : Outcome) : Type 0 where
  pub free : o.0.syncing ≡ false
  pub followed : IsFollowed o.0
  pub settled :
      o.1 ≡ false
      → (o.0.pending ≡ none) × (last : Snapshot) × (o.0.latest ≡ some last) × Tracks last o.0.ids

sync-Guards : (fuel : ℕ) → Guards (sync (suc fuel))
unfolding sync
sync-Guards fuel x s busy =
    if_lem (λ (o : Outcome). o ≡ (record s { pending = some x; latest = some x }, false)) s.syncing
      _ _ (λ on. refl) (λ off. absurd (ground (arith, busy, off)))

-- If a follower of the handlers' calls knows the tracked ids when `_sync` is called with a snapshot, and
-- no pass is under way and none waits: whatever snapshots the handlers bring about, and whether they
-- throw or not, the call ends, and the follower knows the ids again. If no handler has thrown, nothing
-- waits, and the ids hold those of the snapshot that `_sync` was called with last, and exactly those if
-- it may remove. Two more than the handlers' reactions is enough fuel.
pub sync_lem :
    (fuel : ℕ) (snapshot : Snapshot) (s : MembershipReconciler)
    → s.syncing ≡ false
    → s.pending ≡ none
    → length s.reactions + 1 < fuel
    → IsFollowed s
    → IsSynced (sync fuel snapshot s)
unfolding sync
sync_lem zero snapshot s off none' enough v = absurd (omega (arith, enough))
sync_lem (suc zero) snapshot s off none' enough v = absurd (omega (arith, enough))
sync_lem (suc (suc fuel)) snapshot s off none' enough v =
    if_lem IsSynced s.syncing _ _ (λ on. absurd (ground (arith, on, off)))
      (λ idle.
        if_lem IsSynced (apply (sync (suc fuel)) snapshot begun).1
          (record ((apply (sync (suc fuel)) snapshot begun).0) { syncing = false }, true) _
          (λ threw. record {
            free = refl;
            followed = record { told = going.0.followed.told };
            settled = λ calm. absurd (ground (arith, calm));
          })
          (λ calm. by_link (sync_lem (suc fuel)) (going.1 calm) going.0.held.link))
  where
    begun : MembershipReconciler
    begun = record s { syncing = true; latest = some snapshot }

    going :
        Going snapshot (length s.reactions) (apply (sync (suc fuel)) snapshot begun).0
        × ((apply (sync (suc fuel)) snapshot begun).1 ≡ false
            → Tracks snapshot (apply (sync (suc fuel)) snapshot begun).0.ids)
    going =
        apply-Going (sync (suc fuel)) (sync-Guards fuel) snapshot (length s.reactions) begun
          (record {
            held = record { busy = refl; fewer = omega arith; link = unchanged none' refl };
            followed = record { told = v.told };
          })

    after : MembershipReconciler
    after = record ((apply (sync (suc fuel)) snapshot begun).0) { syncing = false }

    over :
        Tracks snapshot after.ids
        → after.latest ≡ some snapshot
        → after.pending ≡ none
        → IsSynced (after, false)
    over tracks last idle = record {
      free = refl;
      followed = record { told = going.0.followed.told };
      settled = λ calm. (idle, snapshot, last, tracks);
    }

    by_link :
        ((x : Snapshot) (t : MembershipReconciler)
          → t.syncing ≡ false
          → t.pending ≡ none
          → length t.reactions + 1 < suc fuel
          → IsFollowed t
          → IsSynced (sync (suc fuel) x t))
        → Tracks snapshot after.ids
        → Linked snapshot (length s.reactions) (length after.reactions) after.pending after.latest
        → IsSynced (sync_pending (sync (suc fuel)) after.pending after)
    by_link again tracks (unchanged idle last) =
        subst (λ o. IsSynced (sync_pending (sync (suc fuel)) o after)) (sym idle)
          (over tracks last idle)
    by_link again tracks (newer x waits last less) =
        subst (λ o. IsSynced (sync_pending (sync (suc fuel)) o after)) (sym waits)
          (again x (record after { pending = none }) refl refl (omega (arith, less, enough))
            (record { told = going.0.followed.told }))
