-- ===== src/Stock/Batches.antt =====
-- apps/api/src/stock/batches.ts: `isExpired`, `pickBatches`, `splitOverShares` and `putBack`.
pub mod Pick
pub mod Order
pub mod Split
pub mod PutBack
use Prim.Native.Nat.{min}
use pointofsale.Base.{
  ℕ, ◌+◌, ◌-◌, Bool, true, false, not, ◌&&◌, Option, none, some, List, [], ◌∷◌, ◌++◌, map, ℤ, pos,
  pos_part, ltb_ℤ, ltb, leb, ◌==◌, if◌then◌else◌, filter, sum_by, sort,
}

pub record BatchLot : Type 0 where
  pub batch_id : ℕ
  pub batch_no : ℕ
  pub expiry_date : Option ℕ
  pub created_at : ℕ
  pub qty : ℤ

-- A batch, or (none) the item's stock without one.
pub record BatchShare : Type 0 where
  pub batch_id : Option ℕ
  pub qty : ℕ

unfoldable pub is_expired : Option ℕ → ℕ → Bool
is_expired none today = false
is_expired (some date) today = ltb date today

-- `expiryDate ?? '9999-12-31'`.
abbrev pub expiry_or_last : Option ℕ → ℕ
expiry_or_last none = 99_991_231
expiry_or_last (some date) = date

-- `byExpiry(a, b) <= 0`: by expiry date, then creation, then id.
unfoldable pub by_expiry : BatchLot → BatchLot → Bool
by_expiry a b =
    if ltb (expiry_or_last a.expiry_date) (expiry_or_last b.expiry_date)
    then true
    else (if ltb (expiry_or_last b.expiry_date) (expiry_or_last a.expiry_date)
        then false
        else (if ltb a.created_at b.created_at
            then true
            else (if ltb b.created_at a.created_at then false else leb a.batch_id b.batch_id)))

pub record PickInput : Type 0 where
  pub lots : List BatchLot
  pub unbatched : ℤ
  pub qty : ℕ
  pub today : ℕ
  pub include_expired : Bool

abbrev pub is_fresh_lot : ℕ → BatchLot → Bool
is_fresh_lot today lot = ltb_ℤ (pos 0) lot.qty && not (is_expired lot.expiry_date today)

abbrev pub is_expired_lot : ℕ → BatchLot → Bool
is_expired_lot today lot = ltb_ℤ (pos 0) lot.qty && is_expired lot.expiry_date today

abbrev pub share_of : BatchLot → BatchShare
share_of lot = record { batch_id = some lot.batch_id; qty = pos_part lot.qty }

unfoldable pub fresh_lots : PickInput → List BatchLot
fresh_lots i = sort by_expiry (filter (is_fresh_lot i.today) i.lots)

unfoldable pub expired_lots : PickInput → List BatchLot
expired_lots i = sort by_expiry (filter (is_expired_lot i.today) i.lots)

unfoldable pub unbatched_share : PickInput → List BatchShare
unbatched_share i =
    if ltb_ℤ (pos 0) i.unbatched
    then record { batch_id = none; qty = pos_part i.unbatched } ∷ []
    else []

unfoldable pub sources_of : PickInput → List BatchShare
sources_of i =
    unbatched_share i
    ++ (map share_of (fresh_lots i)
        ++ (if i.include_expired then map share_of (expired_lots i) else []))

-- The loop over the sources: what is taken, and what is left to find.
unfoldable pub take_sources : List BatchShare → ℕ → List BatchShare × ℕ
take_sources [] left = ([], left)
take_sources (s ∷ sources) left =
    let qty = min left s.qty in
    let rest = take_sources sources (left - qty) in
    let taken : List BatchShare × ℕ =
      (record { batch_id = s.batch_id; qty = qty } ∷ rest.0, rest.1) in
    if left == 0 then ([], left) else taken

pub record Picked : Type 0 where
  pub taken : List BatchShare
  pub short : ℕ
  pub expired : ℕ

unfoldable pub pick_batches : PickInput → Picked
pick_batches i =
    let (taken, left) = take_sources (sources_of i) i.qty in
    record {
      taken = taken;
      short = left;
      expired =
          if i.include_expired
          then 0
          else sum_by (λ lot. pos_part lot.qty) (filter (is_expired_lot i.today) i.lots);
    }

abbrev pub total_qty : List BatchShare → ℕ
total_qty = sum_by (λ s. s.qty)

-- One line of `splitOverShares`: its parts, what is left of the shares, and what they do not cover.
unfoldable pub split_line : List BatchShare → ℕ → List BatchShare × List BatchShare × ℕ
split_line [] want = ([], [], want)
split_line (s ∷ shares) want =
    let qty = min want s.qty in
    let kept = split_line shares want in
    let rest = split_line shares (want - qty) in
    let skip : List BatchShare × List BatchShare × ℕ = (kept.0, s ∷ kept.1, kept.2) in
    let part : List BatchShare × List BatchShare × ℕ = (
      record { batch_id = s.batch_id; qty = qty } ∷ rest.0,
      record s { qty = s.qty - qty } ∷ rest.1,
      rest.2,
    ) in
    if want == 0 then ([], s ∷ shares, 0) else (if s.qty == 0 then skip else part)

-- Anything not covered has no batch.
abbrev pub uncovered : ℕ → List BatchShare
uncovered want = if want == 0 then [] else record { batch_id = none; qty = want } ∷ []

pub record DocumentLine : Type 0 where
  pub item_id : ℕ
  pub qty : ℕ

-- The `Map` of shares by item, as what `get` answers.
abbrev pub SharesByItem : Type 0
SharesByItem = ℕ → Option (List BatchShare)

abbrev pub put_shares : SharesByItem → ℕ → List BatchShare → SharesByItem
put_shares m item shares j = if j == item then some shares else m j

-- A line's parts: of an item with no shares, the line itself without a batch.
unfoldable pub line_parts : ℕ → Option (List BatchShare) → List BatchShare
line_parts qty none = record { batch_id = none; qty = qty } ∷ []
line_parts qty (some shares) = let done = split_line shares qty in done.0 ++ uncovered done.2

-- The shares once a line has taken its parts.
unfoldable pub shares_after : SharesByItem → DocumentLine → Option (List BatchShare) → SharesByItem
shares_after m line none = m
shares_after m line (some shares) = put_shares m line.item_id (split_line shares line.qty).1

-- The parts of each line, in the order of the lines, and the shares left at the end.
unfoldable pub split_over_shares :
    List DocumentLine → SharesByItem → List (List BatchShare) × SharesByItem
split_over_shares [] left = ([], left)
split_over_shares (line ∷ lines) left =
    let found = left line.item_id in
    let rest = split_over_shares lines (shares_after left line found) in
    (line_parts line.qty found ∷ rest.0, rest.1)

-- `a === b` of batch ids, one of which may be null.
abbrev pub same_batch : Option ℕ → Option ℕ → Bool
same_batch none none = true
same_batch none (some b) = false
same_batch (some a) none = false
same_batch (some a) (some b) = a == b

-- The `Map` of what came back to each batch, as `get(id) ?? 0`.
abbrev pub ReturnedTo : Type 0
ReturnedTo = Option ℕ → ℕ

abbrev pub put_returned : ReturnedTo → Option ℕ → ℕ → ReturnedTo
put_returned r b n c = if same_batch c b then n else r c

unfoldable pub returned_to : ReturnedTo → List BatchShare → ReturnedTo
returned_to r [] = r
returned_to r (s ∷ back) = returned_to (put_returned r s.batch_id (r s.batch_id + s.qty)) back

-- The loop over what was sent out: what goes back to each, and what is left.
unfoldable pub put_back_loop : List BatchShare → ReturnedTo → ℕ → List BatchShare × ℕ
put_back_loop [] r left = ([], left)
put_back_loop (s ∷ out) r left =
    let already = r s.batch_id in
    let room = s.qty - already in
    let r' = put_returned r s.batch_id (already - s.qty) in
    let qty = min left room in
    let skip = put_back_loop out r' left in
    let rest = put_back_loop out r' (left - qty) in
    let put : List BatchShare × ℕ =
      (record { batch_id = s.batch_id; qty = qty } ∷ rest.0, rest.1) in
    if left == 0 then ([], left) else (if room == 0 then skip else put)

unfoldable pub put_back : List BatchShare → List BatchShare → ℕ → List BatchShare
put_back out back qty =
    let (shares, left) = put_back_loop out (returned_to (λ _. 0) back) qty in
    shares ++ uncovered left
