-- ===== src/MemoryLocker/Waiting/Facts.antt =====
-- Phases, updates and entries, as the proofs about waiting requests use them.
use tusd.Base.{
  ℕ, ◌≡◌, ◌≢◌, true, false, none, some, Bytes, text_eq_iff, arith, ap, sym, ◌∙◌, ◌⊎◌, ==_iff,
}
use tusd.Base.Dict.{Dict, lookup, insert, erase, lookup-insert, lookup-erase}
use tusd.MemoryLocker.Waiting.{Entry, Phase, waiting, taking, holding, closing, updated, is_quiet}

pub updated_same : {A : Type 0} (p : ℕ) (a : A) (f : ℕ → A) → updated p a f p ≡ a
updated_same p a f = ground arith

pub updated_other : {A : Type 0} (p q : ℕ) (a : A) (f : ℕ → A) → p ≢ q → updated p a f q ≡ f q
updated_other p q a f h = ground (arith, ==_iff p q)

pub updated-cases :
    {A : Type 0} (p q : ℕ) (a : A) (f : ℕ → A)
    → ((p ≡ q) × (updated p a f q ≡ a)) ⊎ ((p ≢ q) × (updated p a f q ≡ f q))
updated-cases p q a f = ground (arith, ==_iff p q)

pub true_ne_false : true ≢ false
true_ne_false e = cc

pub not_holding : {c : ℕ} (phase : Phase) → is_quiet phase ≡ true → phase ≢ holding c
unfolding is_quiet
not_holding phase h e = true_ne_false (sym h ∙ ap is_quiet e)

pub not_closing : {c : ℕ} (phase : Phase) → is_quiet phase ≡ true → phase ≢ closing c
unfolding is_quiet
not_closing phase h e = true_ne_false (sym h ∙ ap is_quiet e)

pub lookup-insert_cases :
    (key id : Bytes) (v : Entry) (m : Dict Entry)
    → ((key ≡ id) × (lookup id (insert key v m) ≡ some v))
      ⊎ ((key ≢ id) × (lookup id (insert key v m) ≡ lookup id m))
lookup-insert_cases key id v m = ground (arith, lookup-insert key id v m, text_eq_iff key id)

pub lookup-erase_cases :
    (key id : Bytes) (m : Dict Entry)
    → ((key ≡ id) × (lookup id (erase key m) ≡ none))
      ⊎ ((key ≢ id) × (lookup id (erase key m) ≡ lookup id m))
lookup-erase_cases key id m = ground (arith, lookup-erase key id m, text_eq_iff key id)

pub none_ne_some : {A : Type 0} {a : A} → none ≢ some a
none_ne_some e = cc

pub some_inj : {A : Type 0} {a b : A} → some a ≡ some b → a ≡ b
some_inj e = cc

pub closing_inj : {c d : ℕ} → closing c ≡ closing d → c ≡ d
closing_inj e = cc

pub closing_ne_holding : {c d : ℕ} → closing c ≢ holding d
closing_ne_holding e = cc

pub holding_ne_taking : {c : ℕ} → holding c ≢ taking
holding_ne_taking e = cc

pub holding_ne_waiting : {c d : ℕ} → holding c ≢ waiting d
holding_ne_waiting e = cc

pub closing_ne_waiting : {c d : ℕ} → closing c ≢ waiting d
closing_ne_waiting e = cc

pub erased : (key id : Bytes) (m : Dict Entry) → key ≡ id → lookup id (erase key m) ≡ none
erased key id m same = ground (arith, lookup-erase key id m, text_eq_iff key id)

pub holding_inj : {c d : ℕ} → holding c ≡ holding d → c ≡ d
holding_inj e = cc
