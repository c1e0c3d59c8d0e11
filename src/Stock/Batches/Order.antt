-- ===== src/Stock/Batches/Order.antt =====
-- The order in which `pickBatches` takes from the stock.
use pointofsale.Base.{
  ℕ, ℤ, ltb_ℤ, not, ◌&&◌, sort, subst, ◌≤◌, ◌<◌, ◌≡◌, ◌⊎◌, ◌↔◌, ap, sym, ◌∙◌, Bool, true, false,
  Option, none, some, List, [], ◌∷◌, ◌++◌, map, ltb, pos, negsuc, pos_part, ◌≤ℤ◌, if◌then◌else◌,
  filter, sort-Pairwise, Pairwise, Any, Any-map, Any-const, Any-sort, Any-filter, arith,
}
use pointofsale.Stock.Batches.{
  BatchLot, BatchShare, is_expired, by_expiry, take_sources, PickInput, is_fresh_lot,
  is_expired_lot, share_of, fresh_lots, expired_lots, sources_of, unbatched_share, pick_batches,
}
use pointofsale.Stock.Batches.Pick.{IsGreedy, take_sources-IsGreedy}

-- The day that a lot is sold by; without one, the end of 9999.
abbrev pub last_sale_day : Option ℕ → ℕ
last_sale_day none = 99_991_231
last_sale_day (some date) = date

-- Sold by an earlier day, or as early and made earlier, or made together and first by id.
abbrev pub IsFirstOut : BatchLot → BatchLot → Type 0
IsFirstOut a b =
    let x = last_sale_day a.expiry_date in
    let y = last_sale_day b.expiry_date in
    (x < y)
    ⊎ ((x ≡ y)
        × ((a.created_at < b.created_at)
            ⊎ ((a.created_at ≡ b.created_at) × (a.batch_id ≤ b.batch_id))))

abbrev pub IsGood : ℕ → Option ℕ → Type 0
IsGood today none = Unit {0}
IsGood today (some date) = today ≤ date

abbrev pub IsPast : ℕ → Option ℕ → Type 0
IsPast today none = ⊥
IsPast today (some date) = date < today

-- The stock without a batch, if there is any.
abbrev pub loose_share : ℕ → List BatchShare
loose_share qty = if ltb 0 qty then record { batch_id = none; qty = qty } ∷ [] else []

by_expiry-true : (a b : BatchLot) → by_expiry a b ≡ true → IsFirstOut a b
unfolding by_expiry
by_expiry-true a b h = ground arith

by_expiry-false : (a b : BatchLot) → by_expiry a b ≡ false → IsFirstOut b a
unfolding by_expiry
by_expiry-false a b h = ground arith

IsFirstOut-trans : (a b c : BatchLot) → IsFirstOut a b → IsFirstOut b c → IsFirstOut a c
IsFirstOut-trans a b c h k = ground arith

-- Some of it is there, and its date passes the test.
fresh_test :
    (today : ℕ) (qty : ℤ) (date : Option ℕ)
    → ((ltb_ℤ (pos 0) qty && not (is_expired date today)) ≡ true)
      ↔ ((pos 1 ≤ℤ qty) × IsGood today date)
unfolding is_expired
fresh_test today qty none = (λ h. ground (arith, h), λ h. ground (arith, h))
fresh_test today qty (some date) = (λ h. ground (arith, h), λ h. ground (arith, h))

expired_test :
    (today : ℕ) (qty : ℤ) (date : Option ℕ)
    → ((ltb_ℤ (pos 0) qty && is_expired date today) ≡ true) ↔ ((pos 1 ≤ℤ qty) × IsPast today date)
unfolding is_expired
expired_test today qty none = (λ h. ground (arith, h), λ h. absurd h.1)
expired_test today qty (some date) = (λ h. ground (arith, h), λ h. ground (arith, h))

-- The lots that pass a test, sorted, are those of the input that meet what the test decides.
sorted_Any :
    (P : BatchLot → Type 0) (p : BatchLot → Bool) (lots : List BatchLot) (lot : BatchLot)
    → ((l : BatchLot) → (p l ≡ true) ↔ P l)
    → Any (λ l. lot ≡ l) (sort by_expiry (filter p lots)) ↔ (Any (λ l. lot ≡ l) lots × P lot)
sorted_Any P p lots lot decides =
    let among = Any-sort by_expiry (λ l. lot ≡ l) (filter p lots) in
    let kept = Any-filter (λ l. lot ≡ l) p lots in
    (
      λ m.
          let both = kept.0 (among.0 m) in
          (
            Any-map _ _ lots (λ l h. h.0) both,
            Any-const lots
                (Any-map _ (λ l. P lot) lots (λ l h. (decides lot).0 (ap p h.0 ∙ h.1)) both),
          ),
      λ h.
          among.1 (
            kept.1
              (Any-map _ _ lots (λ l same. (same, ap p (sym same) ∙ (decides lot).1 h.1)) h.0)),
    )

loose :
    (qty : ℤ)
    → (if ltb_ℤ (pos 0) qty
        then (let s : BatchShare = record { batch_id = none; qty = pos_part qty } in s) ∷ []
        else [])
      ≡ loose_share (pos_part qty)
loose (pos n) = ground arith
loose (negsuc n) = ground arith

unbatched_share-loose : (i : PickInput) → unbatched_share i ≡ loose_share (pos_part i.unbatched)
unfolding unbatched_share
unbatched_share-loose i = loose (i.unbatched)

-- Stock is taken first without a batch, then from the lots that have not expired, then (a write-off)
-- from those that have; each is used up before the next is touched. The lots of either group are those
-- of the input with some stock, which are or are not past their expiry date, and the one that expires
-- first is in front: with the same date the older, then the first by id.
pub pick_batches-IsGreedy :
    (i : PickInput) (lot : BatchLot)
    → let old = if i.include_expired then map share_of (expired_lots i) else [] in
      IsGreedy
        (loose_share (pos_part i.unbatched) ++ (map share_of (fresh_lots i) ++ old))
        (pick_batches i).taken
      × (Any (λ l. lot ≡ l) (fresh_lots i)
          ↔ (Any (λ l. lot ≡ l) i.lots × ((pos 1 ≤ℤ lot.qty) × IsGood i.today lot.expiry_date)))
      × (Any (λ l. lot ≡ l) (expired_lots i)
          ↔ (Any (λ l. lot ≡ l) i.lots × ((pos 1 ≤ℤ lot.qty) × IsPast i.today lot.expiry_date)))
      × Pairwise IsFirstOut (fresh_lots i)
      × Pairwise IsFirstOut (expired_lots i)
unfolding pick_batches fresh_lots expired_lots sources_of unbatched_share
pick_batches-IsGreedy i lot =
    let fresh = filter (is_fresh_lot i.today) i.lots in
    let old = filter (is_expired_lot i.today) i.lots in
    let rest =
      map share_of (fresh_lots i)
      ++ (if i.include_expired then map share_of (expired_lots i) else []) in
    let in_order =
      sort-Pairwise by_expiry IsFirstOut by_expiry-true by_expiry-false IsFirstOut-trans in
    (
      subst (λ sources. IsGreedy sources (take_sources (sources_of i) i.qty).0)
          (ap (λ l. l ++ rest) (unbatched_share-loose i))
          (take_sources-IsGreedy (sources_of i) i.qty),
      sorted_Any (λ l. (pos 1 ≤ℤ l.qty) × IsGood i.today l.expiry_date) (is_fresh_lot i.today)
          i.lots lot (λ l. fresh_test i.today l.qty l.expiry_date),
      sorted_Any (λ l. (pos 1 ≤ℤ l.qty) × IsPast i.today l.expiry_date) (is_expired_lot i.today)
          i.lots lot (λ l. expired_test i.today l.qty l.expiry_date),
      in_order fresh,
      in_order old,
    )
