-- ===== src/Stock/Counts/Openings.antt =====
-- Opening counts: which a ledger has, and that entries and corrections leave one of each.
use pointofsale.Base.{
  ℕ, ◌≡◌, Bool, true, false, not, ◌&&◌, Option, List, [], ◌∷◌, ◌++◌, ◌==◌, All, All-append, All-map,
  Pairwise, Pairwise-append, Bool-cases, inl, inr, arith,
}
use pointofsale.Shop.{find}
use pointofsale.Stock.Batches.{same_batch}
use pointofsale.Stock.Ledger.{StockEntry}
use pointofsale.Stock.Counts.{
  update_first, CountInput, is_opening_type, is_opening_of, in_batch, is_found, corrected_entry,
}
use pointofsale.Stock.Counts.Summed.{opens_in}

abbrev pub is_other : StockEntry → Bool
is_other e = not (is_opening_type e.txn_type)

-- Two opening counts of one item, and of one batch, at one branch.
abbrev pub counted_twice : StockEntry → StockEntry → Bool
counted_twice e e' =
    is_opening_type e.txn_type
    && (is_opening_type e'.txn_type
        && ((e.branch_id == e'.branch_id)
            && ((e.item_id == e'.item_id) && same_batch e.batch_id e'.batch_id)))

abbrev pub IsOpenedOnce : List StockEntry → Type 0
IsOpenedOnce = Pairwise (λ e e'. counted_twice e e' ≡ false)

-- The opening counts take nothing out, and none stands twice.
abbrev pub HasOpenings : List StockEntry → Type 0
HasOpenings es = All (λ e. opens_in e ≡ true) es × IsOpenedOnce es

other_once : (e e' : StockEntry) → is_other e' ≡ true → counted_twice e e' ≡ false
other_once e e' h = ground arith

other_opens_in : (e : StockEntry) → is_other e ≡ true → opens_in e ≡ true
other_opens_in e h = ground arith

others-IsOpenedOnce : (es : List StockEntry) → All (λ e. is_other e ≡ true) es → IsOpenedOnce es
others-IsOpenedOnce [] h = tt
others-IsOpenedOnce (e ∷ es) h = (
  All-map (λ x. is_other x ≡ true) (λ x. counted_twice e x ≡ false) es (λ x. other_once e x) h.1,
  others-IsOpenedOnce es h.1,
)

pub others-HasOpenings :
    (xs es : List StockEntry)
    → All (λ e. is_other e ≡ true) es
    → HasOpenings xs
    → HasOpenings (xs ++ es)
others-HasOpenings xs es h (ins, once) = (
  All-append (λ e. opens_in e ≡ true) xs es ins
      (All-map (λ e. is_other e ≡ true) (λ e. opens_in e ≡ true) es other_opens_in h),
  Pairwise-append (λ e e'. counted_twice e e' ≡ false) xs es once (others-IsOpenedOnce es h)
      (All-map (λ e. opens_in e ≡ true) _ xs
        (λ x u.
          All-map (λ e. is_other e ≡ true) (λ e. counted_twice x e ≡ false) es (λ e. other_once x e)
            h)
        ins),
)

-- A count that was not there can be added.
once_by_test :
    (branch item : ℕ) (batch : Option ℕ) (new e : StockEntry)
    → new.branch_id ≡ branch
    → new.item_id ≡ item
    → (same : (e : StockEntry)
        → same_batch e.batch_id new.batch_id ≡ true
        → in_batch batch e ≡ true)
    → (is_opening_of branch item e && in_batch batch e) ≡ false
    → counted_twice e new ≡ false
once_by_test branch item batch new e eb ei same h = elim (Bool-cases (counted_twice e new)) [
  | inr once ↦ once
  | inl twice ↦
      let batches : same_batch e.batch_id new.batch_id ≡ true = ground (arith, twice) in
      let is_it : is_opening_of branch item e ≡ true = ground (arith, twice, eb, ei) in
      ground (arith, h, is_it, same e batches)
]

pub unfound_once :
    (branch item : ℕ) (batch : Option ℕ) (new : StockEntry) (xs : List StockEntry)
    → new.branch_id ≡ branch
    → new.item_id ≡ item
    → (same : (e : StockEntry)
        → same_batch e.batch_id new.batch_id ≡ true
        → in_batch batch e ≡ true)
    → is_found (find (λ e. is_opening_of branch item e && in_batch batch e) xs) ≡ false
    → All (λ e. All (λ e'. counted_twice e e' ≡ false) (new ∷ [])) xs
unfound_once branch item batch new [] eb ei same h = tt
unfound_once branch item batch new (e ∷ es) eb ei same h =
    elim (Bool-cases (is_opening_of branch item e && in_batch batch e)) [
      | inl is_it ↦ ground (arith, rw is_it at h)
      | inr other ↦ (
        (once_by_test branch item batch new e eb ei same other, tt),
        unfound_once branch item batch new es eb ei same (rw other at h),
      )
    ]

pub new-HasOpenings :
    (xs : List StockEntry) (new : StockEntry)
    → opens_in new ≡ true
    → All (λ e. All (λ e'. counted_twice e e' ≡ false) (new ∷ [])) xs
    → HasOpenings xs
    → HasOpenings (xs ++ (new ∷ []))
new-HasOpenings xs new ins once wf = (
  All-append (λ e. opens_in e ≡ true) xs (new ∷ []) wf.0 (ins, tt),
  Pairwise-append (λ e e'. counted_twice e e' ≡ false) xs (new ∷ []) wf.1 (tt, tt) once,
)

-- A correction keeps what the counts are of.
pub update-opens_in :
    (p : StockEntry → Bool) (c : CountInput) (es : List StockEntry)
    → All (λ e. opens_in e ≡ true) es
    → All (λ e. opens_in e ≡ true) (update_first p (corrected_entry c) es)
update-opens_in p c [] h = tt
update-opens_in p c (e ∷ es) h = elim (Bool-cases (p e)) [
  | inl here ↦ rw here (ground arith, h.1)
  | inr there ↦ rw there (h.0, update-opens_in p c es h.1)
]

update-All_once :
    (p : StockEntry → Bool) (c : CountInput) (x : StockEntry) (es : List StockEntry)
    → All (λ e. counted_twice x e ≡ false) es
    → All (λ e. counted_twice x e ≡ false) (update_first p (corrected_entry c) es)
update-All_once p c x [] h = tt
update-All_once p c x (e ∷ es) h = elim (Bool-cases (p e)) [
  | inl here ↦ rw here (h.0, h.1)
  | inr there ↦ rw there (h.0, update-All_once p c x es h.1)
]

pub update-IsOpenedOnce :
    (p : StockEntry → Bool) (c : CountInput) (es : List StockEntry)
    → IsOpenedOnce es
    → IsOpenedOnce (update_first p (corrected_entry c) es)
update-IsOpenedOnce p c [] h = tt
update-IsOpenedOnce p c (e ∷ es) h = elim (Bool-cases (p e)) [
  | inl here ↦ rw here (h.0, h.1)
  | inr there ↦ rw there (update-All_once p c e es h.0, update-IsOpenedOnce p c es h.1)
]
