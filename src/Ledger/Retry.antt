-- ===== src/Ledger/Retry.antt =====
-- An append to the ledger that is repeated (harness/ledger/jsonl.py).
use adk_coding_agent.Prelude.{
  ℕ, ◌≡◌, ap, sym, ◌∙◌, true, none, some, List, [], ◌∷◌, ◌++◌, eq_refl, arith, inl, inr,
}
use adk_coding_agent.Prelude.Keyed.{Eq}
use adk_coding_agent.Prelude.Result.{ok, ◌>>=◌}
use adk_coding_agent.Ledger.Models.{LedgerEvent, Entry, key_of}
use adk_coding_agent.Ledger.Store.{Digests, new_event, same_content, find_previous, write, append}
use adk_coding_agent.Ledger.Numbering.{append-cases}

module _ {P : Type 0} ⦃eq : Eq P⦄ (digests : Digests P) where
  -- The event that an append returns has the content that was to be appended.
  new_matches :
      (es : List (LedgerEvent P)) (entry : Entry P) (now : ℕ)
      → same_content (new_event digests es entry (key_of entry) now) entry ≡ true
  unfolding new_event
  new_matches es entry now = ground (
    arith,
    eq_refl entry.source,
    eq_refl entry.source_id,
    eq_refl entry.kind,
    eq.beq_iff entry.payload entry.payload,
  )

  find_previous-snoc :
      (es : List (LedgerEvent P)) (entry : Entry P) (now : ℕ) (m : List (LedgerEvent P))
      → find_previous es entry (key_of entry) ≡ ok none
      → find_previous (es ++ new_event digests m entry (key_of entry) now ∷ []) entry (key_of entry)
        ≡ ok (some (new_event digests m entry (key_of entry) now))
  unfolding find_previous new_event
  find_previous-snoc [] entry now m h =
      ground (arith, new_matches m entry now, eq_refl entry.task_id, eq_refl (key_of entry))
  find_previous-snoc (x ∷ es) entry now m h = ground (arith, find_previous-snoc es entry now m)

  -- An append, repeated at any time once it has returned, returns the first event and writes nothing.
  pub append_again :
      (es : List (LedgerEvent P)) (entry : Entry P) (now later : ℕ) (event : LedgerEvent P)
      (after : List (LedgerEvent P))
      → append digests es entry now ≡ ok (event, after)
      → append digests after entry later ≡ ok (event, after)
  unfolding append
  append_again es entry now later event after h =
      let again : find_previous after entry (key_of entry) ≡ ok (some event) =
        elim (append-cases digests es entry now event after h) [
          | inl (found, same) ↦ ap (λ l. find_previous l entry (key_of entry)) same ∙ found
          | inr (fresh, made, tail) ↦
              ap (λ l. find_previous l entry (key_of entry))
                (tail ∙ ap (λ (e : LedgerEvent P). es ++ e ∷ []) made)
              ∙ find_previous-snoc es entry now es fresh
              ∙ ap (λ e. ok (some e)) (sym made)
        ] in
      ap
        (λ m. m >>= λ previous.
          ok (write previous (new_event digests after entry (key_of entry) later) after))
        again
