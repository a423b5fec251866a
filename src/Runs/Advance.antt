-- ===== src/Runs/Advance.antt =====
-- How the runs move on: a run keeps its identity, its status only advances, and an ended run stays as
-- it is (harness/server/registry.py).
use adk_coding_agent.Prelude.{
  ℕ, String, ◌≡◌, refl, ap, subst, ◌∙◌, Bool, true, false, not, ◌&&◌, ◌||◌, Option, some, List, [],
  ◌∷◌, ◌++◌, ◌==◌, find, arith, Bool-cases, inl, inr,
}
use adk_coding_agent.Prelude.Keyed.{find_by, string_eq}
use adk_coding_agent.Prelude.Table.{update_where}
use adk_coding_agent.Prelude.Text.{Text}
use adk_coding_agent.Runs.Models.{RunStatus, queued, status_eq, is_active, RunRecord}
use adk_coding_agent.Runs.Store.{set_status}

-- The statuses that a run of a status may come to have.
abbrev pub may_become : RunStatus → RunStatus → Bool
may_become a b = status_eq a b || (is_active a && not (status_eq b queued))

pub record RunLater (r t : RunRecord) : Type 0 where
  pub same_run : t ≡ record r { status = t.status; error = t.error; updated_at = t.updated_at }
  pub advances : may_become r.status t.status ≡ true
  pub ended_stays : is_active r.status ≡ false → t ≡ r

pub status_eq_iff : (a b : RunStatus) → status_eq a b ≡ true → a ≡ b
status_eq_iff a b h = ground arith

may_become_trans :
    (a b c : RunStatus) → may_become a b ≡ true → may_become b c ≡ true → may_become a c ≡ true
may_become_trans a b c h g = ground arith

pub RunLater-refl : (r : RunRecord) → RunLater r r
RunLater-refl r = record { same_run = refl; advances = ground arith; ended_stays = λ e. refl }

pub RunLater-trans : (r s t : RunRecord) → RunLater r s → RunLater s t → RunLater r t
RunLater-trans r s t a b = record {
  same_run =
      b.same_run
      ∙ ap
          (λ (x : RunRecord). record x {
            status = t.status;
            error = t.error;
            updated_at = t.updated_at;
          })
          a.same_run;
  advances = may_become_trans r.status s.status t.status a.advances b.advances;
  ended_stays = λ e.
      let first = a.ended_stays e in
      b.ended_stays (ap (λ (x : RunRecord). is_active x.status) first ∙ e) ∙ first;
}

-- The rows of a table, each the later one of a row that was there, and new rows after them.
abbrev pub RunsLater : List RunRecord → List RunRecord → Type 0
RunsLater [] later = Unit
RunsLater (r ∷ runs) [] = ⊥
RunsLater (r ∷ runs) (t ∷ later) = RunLater r t × RunsLater runs later

pub RunsLater-append : (runs new : List RunRecord) → RunsLater runs (runs ++ new)
RunsLater-append [] new = tt
RunsLater-append (r ∷ runs) new = (RunLater-refl r, RunsLater-append runs new)

pub RunsLater-trans :
    (runs middle later : List RunRecord)
    → RunsLater runs middle
    → RunsLater middle later
    → RunsLater runs later
RunsLater-trans [] middle later a b = tt
RunsLater-trans (r ∷ runs) [] later a b = absurd a
RunsLater-trans (r ∷ runs) (s ∷ middle) [] a b = absurd b
RunsLater-trans (r ∷ runs) (s ∷ middle) (t ∷ later) a b =
    (RunLater-trans r s t a.0 b.0, RunsLater-trans runs middle later a.1 b.1)

-- A row that is looked up by its id is found as its later self.
pub RunsLater-find :
    (runs later : List RunRecord) (run_id : String) (r : RunRecord)
    → RunsLater runs later
    → find_by (λ (x : RunRecord). x.run_id) run_id runs ≡ some r
    → (t : RunRecord) × (find_by (λ (x : RunRecord). x.run_id) run_id later ≡ some t) × RunLater r t
RunsLater-find [] later run_id r l h = absurd (ground arith)
RunsLater-find (x ∷ runs) [] run_id r l h = absurd l
RunsLater-find (x ∷ runs) (y ∷ later) run_id r l h =
    let same : y.run_id ≡ x.run_id = ap (λ (z : RunRecord). z.run_id) l.0.same_run in
    elim (Bool-cases (x.run_id == run_id)) [
      | inl here ↦
          let own : x ≡ r = ground arith in (y, ground arith, subst (λ z. RunLater z y) own l.0)
      | inr there ↦
          let (t, found, later_t) = RunsLater-find runs later run_id r l.1 (ground arith) in
          (t, ground arith, later_t)
    ]

-- A row that a test on the identity finds is found as its later self.
pub RunsLater-search :
    (p : RunRecord → Bool) (runs later : List RunRecord) (r : RunRecord)
    → ((x y : RunRecord) → RunLater x y → p y ≡ p x)
    → RunsLater runs later
    → find p runs ≡ some r
    → (t : RunRecord) × (find p later ≡ some t) × RunLater r t
RunsLater-search p [] later r stable l h = absurd (ground arith)
RunsLater-search p (x ∷ runs) [] r stable l h = absurd l
RunsLater-search p (x ∷ runs) (y ∷ later) r stable l h =
    let same = stable x y l.0 in
    elim (Bool-cases (p x)) [
      | inl here ↦
          let own : x ≡ r = ground arith in (y, ground arith, subst (λ z. RunLater z y) own l.0)
      | inr there ↦
          let (t, found, later_t) = RunsLater-search p runs later r stable l.1 (ground arith) in
          (t, ground arith, later_t)
    ]

-- The update of an active run to a status that is not queued.
pub update-RunsLater :
    (run_id : String) (previous status : RunStatus) (error : Option Text) (now : ℕ)
    (runs : List RunRecord)
    → is_active previous ≡ true
    → status_eq status queued ≡ false
    → RunsLater runs (
        update_where
          (λ (r : RunRecord). r.run_id == run_id && status_eq r.status previous)
          (set_status status error now)
          runs)
unfolding update_where
update-RunsLater run_id previous status error now [] a q = tt
update-RunsLater run_id previous status error now (r ∷ runs) a q = (
  elim (Bool-cases (r.run_id == run_id && status_eq r.status previous)) [
    | inl e ↦ rw e (record {
      same_run = refl;
      advances = ground arith;
      ended_stays = λ ended. absurd (ground (arith, status_eq_iff r.status previous));
    })
    | inr e ↦ rw e (RunLater-refl r)
  ],
  update-RunsLater run_id previous status error now runs a q,
)
