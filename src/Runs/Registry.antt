-- ===== src/Runs/Registry.antt =====
-- The invariant of the registry, and what an insert or an update of a run does to it
-- (harness/server/registry.py).
use adk_coding_agent.Prelude.{
  ℕ, ◌+◌, ◌≤◌, String, ◌≡◌, refl, ap, sym, subst, ◌∙◌, Bool, true, false, ◌&&◌, Option, none, some,
  List, [], ◌∷◌, ◌++◌, map, ◌==◌, eq_iff, if◌then◌else◌, filter, any, find, length, arith,
  Bool-cases, inl, inr,
}
use adk_coding_agent.Prelude.Keyed.{string_eq, mem_key, DistinctKeys, DistinctKeys-snoc}
use adk_coding_agent.Prelude.Table.{update_where, map-update_where}
use adk_coding_agent.Prelude.Text.{Text}
use adk_coding_agent.Prelude.Unique.{Slot, slot, clashes, Unique, Unique-snoc}
use adk_coding_agent.Runs.Models.{RunStatus, status_eq, is_active, RunRecord}
use adk_coding_agent.Runs.Store.{set_status, same_key, same_session}
use adk_coding_agent.Runs.Advance.{status_eq_iff}

abbrev pub id_of : RunRecord → String
id_of r = r.run_id

abbrev pub key_slot : RunRecord → Slot
key_slot r = slot r.user_id (some r.idempotency_key)

abbrev pub is_active_in : String → String → RunRecord → Bool
is_active_in user_id session_id r =
    r.user_id == user_id && r.session_id == session_id && is_active r.status

abbrev pub is_row : String → RunStatus → RunRecord → Bool
is_row run_id previous r = r.run_id == run_id && status_eq r.status previous

-- The ids are distinct, and so are the keys of a user; a user's session has one active run at most.
pub record AreRuns (runs : List RunRecord) : Type 0 where
  pub ids : DistinctKeys (map id_of runs)
  pub keys : Unique (map key_slot runs)
  pub one_active :
      (user_id session_id : String) → length (filter (is_active_in user_id session_id) runs) ≤ 1

unused_key :
    (candidate : RunRecord) (runs : List RunRecord)
    → find (same_key candidate) runs ≡ none
    → clashes (key_slot candidate) (map key_slot runs) ≡ false
unused_key candidate [] h = refl
unused_key candidate (r ∷ runs) h = ground (
  arith,
  unused_key candidate runs,
  eq_iff r.user_id candidate.user_id,
  eq_iff candidate.user_id r.user_id,
  eq_iff r.idempotency_key candidate.idempotency_key,
  eq_iff candidate.idempotency_key r.idempotency_key,
)

unused_id :
    (run_id : String) (runs : List RunRecord)
    → any (λ (r : RunRecord). r.run_id == run_id) runs ≡ false
    → mem_key run_id (map id_of runs) ≡ false
unused_id run_id [] h = refl
unused_id run_id (r ∷ runs) h = ground (arith, unused_id run_id runs)

map-snoc {κ} :
    {B : Type κ} (f : RunRecord → B) (runs : List RunRecord) (r : RunRecord)
    → map f (runs ++ r ∷ []) ≡ map f runs ++ f r ∷ []
map-snoc f [] r = refl
map-snoc f (x ∷ runs) r = ap (◌∷◌ (f x)) (map-snoc f runs r)

length-filter-snoc :
    (p : RunRecord → Bool) (runs : List RunRecord) (r : RunRecord)
    → length (filter p (runs ++ r ∷ [])) ≡ length (filter p runs) + (if p r then 1 else 0)
length-filter-snoc p [] r = ground arith
length-filter-snoc p (x ∷ runs) r = ground (arith, length-filter-snoc p runs r)

-- A session without active work counts no active run.
count-idle :
    (candidate : RunRecord) (runs : List RunRecord)
    → any (λ r. same_session candidate r && is_active r.status) runs ≡ false
    → length (filter (is_active_in candidate.user_id candidate.session_id) runs) ≡ 0
count-idle candidate [] h = refl
count-idle candidate (r ∷ runs) h = ground (arith, count-idle candidate runs)

-- The count of a session after an insert.
count-snoc :
    (user_id session_id : String) (candidate : RunRecord) (runs : List RunRecord)
    → any (λ r. same_session candidate r && is_active r.status) runs ≡ false
    → length (filter (is_active_in user_id session_id) runs) ≤ 1
    → length (filter (is_active_in user_id session_id) (runs ++ candidate ∷ [])) ≤ 1
count-snoc user_id session_id candidate runs h n =
    let counted = length-filter-snoc (is_active_in user_id session_id) runs candidate in
    elim (Bool-cases (is_active_in user_id session_id candidate)) [
      | inl own ↦
          let same_user : candidate.user_id ≡ user_id =
            (eq_iff candidate.user_id user_id).0 (ground arith) in
          let same_session : candidate.session_id ≡ session_id =
            (eq_iff candidate.session_id session_id).0 (ground arith) in
          let idle : length (filter (is_active_in user_id session_id) runs) ≡ 0 =
            ap (λ u. length (filter (is_active_in u session_id) runs)) (sym same_user)
            ∙ ap (λ v. length (filter (is_active_in candidate.user_id v) runs)) (sym same_session)
            ∙ count-idle candidate runs h in
          ground arith
      | inr other ↦ ground arith
    ]

pub insert-AreRuns :
    (candidate : RunRecord) (runs : List RunRecord)
    → AreRuns runs
    → find (same_key candidate) runs ≡ none
    → any (λ r. same_session candidate r && is_active r.status) runs ≡ false
    → any (λ (r : RunRecord). r.run_id == candidate.run_id) runs ≡ false
    → AreRuns (runs ++ candidate ∷ [])
insert-AreRuns candidate runs h fresh idle new_id = record {
  ids = subst DistinctKeys (sym (map-snoc id_of runs candidate)) (
      DistinctKeys-snoc candidate.run_id (map id_of runs) h.ids
        (unused_id candidate.run_id runs new_id));
  keys = subst Unique (sym (map-snoc key_slot runs candidate)) (
      Unique-snoc (key_slot candidate) (map key_slot runs) h.keys
        (unused_key candidate runs fresh));
  one_active = λ user_id session_id.
      count-snoc user_id session_id candidate runs idle (h.one_active user_id session_id);
}

-- No session has more active runs after the update of an active one.
count-update :
    (user_id session_id run_id : String) (previous status : RunStatus) (error : Option Text)
    (now : ℕ) (runs : List RunRecord)
    → is_active previous ≡ true
    → length (
        filter
          (is_active_in user_id session_id)
          (update_where (is_row run_id previous) (set_status status error now) runs))
      ≤ length (filter (is_active_in user_id session_id) runs)
unfolding update_where
count-update user_id session_id run_id previous status error now [] a = omega arith
count-update user_id session_id run_id previous status error now (r ∷ runs) a = ground (
  arith,
  count-update user_id session_id run_id previous status error now runs a,
  status_eq_iff r.status previous,
)

pub update-AreRuns :
    (run_id : String) (previous status : RunStatus) (error : Option Text) (now : ℕ)
    (runs : List RunRecord)
    → AreRuns runs
    → is_active previous ≡ true
    → AreRuns (update_where (is_row run_id previous) (set_status status error now) runs)
update-AreRuns run_id previous status error now runs h a = record {
  ids =
      subst DistinctKeys
        (sym (
          map-update_where id_of (is_row run_id previous) (set_status status error now) (λ r. refl)
            runs))
        h.ids;
  keys =
      subst Unique
        (sym (
          map-update_where key_slot (is_row run_id previous) (set_status status error now)
            (λ r. refl) runs))
        h.keys;
  one_active = λ user_id session_id. omega (
    arith,
    count-update user_id session_id run_id previous status error now runs a,
    h.one_active user_id session_id,
  );
}
