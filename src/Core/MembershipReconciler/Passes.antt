-- ===== src/Core/MembershipReconciler/Passes.antt =====
-- What a handler can change while a pass runs: all that it brings about waits.
use rtcforge.Prelude.{
  ℕ, ◌≤◌, ◌<◌, true, false, List, [], ◌∷◌, ◌++◌, Option, none, some, ◌≡◌, refl, sym, subst, arith,
  if◌then◌else◌, length,
}
use rtcforge.Core.MembershipReconciler.{
  HandlerCall, Snapshot, Reaction, MembershipReconciler, Outcome, deliver, react, call,
}

-- A call of `_sync` that finds a pass under way only notes the snapshot.
abbrev pub Guards : (Snapshot → MembershipReconciler → Outcome) → Type 0
Guards sync_again =
    (x : Snapshot) (s : MembershipReconciler)
    → s.syncing ≡ true
    → sync_again x s ≡ (record s { pending = some x; latest = some x }, false)

-- In a pass over `snapshot` that began with `n` reactions to come, of which `left` are left: what waits,
-- and what `_sync` was called with last.
pub data Linked (snapshot : Snapshot) (n left : ℕ) (pending latest : Option Snapshot) : Type 0 where
  unchanged : pending ≡ none → latest ≡ some snapshot → Linked snapshot n left pending latest
  newer :
      (x : Snapshot)
      → pending ≡ some x
      → latest ≡ some x
      → left < n
      → Linked snapshot n left pending latest

Linked-less :
    {snapshot : Snapshot} {n left fewer : ℕ} {pending latest : Option Snapshot}
    → fewer ≤ left
    → Linked snapshot n left pending latest
    → Linked snapshot n fewer pending latest
Linked-less less (unchanged e f) = unchanged e f
Linked-less less (newer x e f lt) = newer x e f (omega arith)

pub record Held (snapshot : Snapshot) (n : ℕ) (s : MembershipReconciler) : Type 0 where
  pub busy : s.syncing ≡ true
  pub fewer : length s.reactions ≤ n
  pub link : Linked snapshot n (length s.reactions) s.pending s.latest

-- After a handler: the ids and the log are as they were.
pub record Undisturbed (snapshot : Snapshot) (n : ℕ) (s t : MembershipReconciler) : Type 0 where
  pub held : Held snapshot n t
  pub same_ids : t.ids ≡ s.ids
  pub same_calls : t.calls ≡ s.calls

module _ (sync_again : Snapshot → MembershipReconciler → Outcome) (guards : Guards sync_again)
    (snapshot : Snapshot) (n : ℕ) where
  deliver-Undisturbed :
      (snapshots : List Snapshot) (s : MembershipReconciler)
      → length s.reactions < n
      → Held snapshot n s
      → Undisturbed snapshot n s (deliver sync_again snapshots s).0
  unfolding deliver
  deliver-Undisturbed [] s lt v = record { held = v; same_ids = refl; same_calls = refl }
  deliver-Undisturbed (x ∷ snapshots) s lt v =
      let noted : MembershipReconciler = record s { pending = some x; latest = some x } in
      let rest =
        deliver-Undisturbed snapshots noted lt
          (record { busy = v.busy; fewer = v.fewer; link = newer x refl refl lt }) in
      subst
        (λ (o : Outcome).
          Undisturbed snapshot n s (if o.1 then o else deliver sync_again snapshots o.0).0)
        (sym (guards x s v.busy))
        (record { held = rest.held; same_ids = rest.same_ids; same_calls = rest.same_calls })

  react-Undisturbed :
      (reactions : List Reaction) (s : MembershipReconciler)
      → s.reactions ≡ reactions
      → Held snapshot n s
      → Undisturbed snapshot n s (react sync_again reactions s).0
  unfolding react
  react-Undisturbed [] s here v = record { held = v; same_ids = refl; same_calls = refl }
  react-Undisturbed (r ∷ reactions) s here v =
      let used : MembershipReconciler = record s { reactions = reactions } in
      let less : length reactions < length s.reactions = ground (arith, here) in
      let done = deliver-Undisturbed r.snapshots used (omega (arith, v.fewer, less)) (record {
        busy = v.busy;
        fewer = omega (arith, v.fewer, less);
        link = Linked-less (omega (arith, less)) v.link;
      }) in
      record { held = done.held; same_ids = done.same_ids; same_calls = done.same_calls }

  -- A handler is called: the call is logged, and nothing else is disturbed.
  pub call-Undisturbed :
      (c : HandlerCall) (s : MembershipReconciler)
      → Held snapshot n s
      → Undisturbed snapshot n (record s { calls = s.calls ++ (c ∷ []) }) (call sync_again c s).0
  unfolding call
  call-Undisturbed c s v =
      react-Undisturbed s.reactions (record s { calls = s.calls ++ (c ∷ []) }) refl
        (record { busy = v.busy; fewer = v.fewer; link = v.link })
