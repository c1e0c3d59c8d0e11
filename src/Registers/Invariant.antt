-- ===== src/Registers/Invariant.antt =====
-- Which registers are open together, over `openRegister`, `closeRegister` and `closeRegisterFor`.
use pointofsale.Base.{
  ℕ, ◌≡◌, Bool, true, false, not, ◌&&◌, ◌||◌, Option, some, List, [], ◌∷◌, map, ◌==◌, All, All-map,
  map-All, ok, >>=-ok, guard->>=, found-ok, ok_injective, ℤ, arith, Bool-cases, inl, inr, guard,
  found, sym, subst, pos, pos_part, leb_ℤ,
}
use pointofsale.Shop.{
  negative_balance, branch_not_found, no_branch_access, admin_required, fallback_counter_elsewhere,
  already_open_by_you, counter_taken, open_register_not_found, require_session_register_id,
  require_session_branch_id, SessionUser, RegisterSession, Tables, PosEnv, find, is_open,
}
use pointofsale.Registers.{
  BranchRows, is_mine, is_on, is_none, open_register, ClosingWhere, is_closing, closed_row,
  update_row, close_open_register, close_register, close_register_for, claim_counter, Counter,
  is_counted, pick_counter, is_elsewhere, new_register,
}
use pointofsale.Drawer.{DrawerRows, RegisterCash, register_cash}

-- Both open, on one counter or by one user in one branch.
abbrev pub clash : RegisterSession → RegisterSession → Bool
clash r q =
    is_open r
    && (is_open q
        && ((r.counter_id == q.counter_id)
            || ((r.user_id == q.user_id) && (r.branch_id == q.branch_id))))

abbrev pub HasNoClash : List RegisterSession → Type 0
HasNoClash [] = Unit {0}
HasNoClash (r ∷ rs) = All (λ q. clash r q ≡ false) rs × HasNoClash rs

find_none-All :
    {A : Type 0} (p : A → Bool) (xs : List A)
    → is_none (find p xs) ≡ true
    → All (λ x. p x ≡ false) xs
find_none-All p [] h = tt
find_none-All p (x ∷ xs) h = elim (Bool-cases (p x)) [
  | inl e ↦ ground arith
  | inr e ↦ (e, find_none-All p xs (rw e at h))
]

new_no_clash :
    (new : RegisterSession) (rs : List RegisterSession)
    → All (λ q. is_mine new.branch_id new.user_id q ≡ false) rs
    → All (λ q. is_on new.counter_id q ≡ false) rs
    → All (λ q. clash new q ≡ false) rs
new_no_clash new [] mine on = tt
new_no_clash new (q ∷ rs) mine on =
    let head : clash new q ≡ false = ground (arith, mine.0, on.0) in
    (head, new_no_clash new rs mine.1 on.1)

-- A row that is closed, or stays, clashes with no more than before.
update_no_clash :
    (id : ℕ) (cash : RegisterCash) (closing : Option ℤ) (now : ℕ) (r q : RegisterSession)
    → clash r q ≡ false
    → clash
        (update_row id (closed_row cash closing now) r)
        (update_row id (closed_row cash closing now) q)
      ≡ false
update_no_clash id cash closing now r q h = ground arith

update-HasNoClash :
    (id : ℕ) (cash : RegisterCash) (closing : Option ℤ) (now : ℕ) (rs : List RegisterSession)
    → HasNoClash rs
    → HasNoClash (map (update_row id (closed_row cash closing now)) rs)
update-HasNoClash id cash closing now [] h = tt
update-HasNoClash id cash closing now (r ∷ rs) h = (
  map-All _ (update_row id (closed_row cash closing now)) rs
      (All-map (λ q. clash r q ≡ false) _ rs (λ q. update_no_clash id cash closing now r q) h.0),
  update-HasNoClash id cash closing now rs h.1,
)

claim_counter-HasNoClash :
    (t t' : Tables) (id : ℕ) (s : SessionUser) (branch : ℕ) (c : Counter) (opening : ℕ)
    (row : RegisterSession)
    → HasNoClash t.registers
    → claim_counter t id s branch c opening ≡ ok (t', row)
    → HasNoClash t'.registers
unfolding claim_counter
claim_counter-HasNoClash t t' id s branch c opening row wf h =
    let new = new_register id s branch c opening in
    let after = record t { registers = new ∷ t.registers } in
    let (mine, h1) =
      guard->>= (is_none (find (is_mine branch s.user_id) t.registers)) already_open_by_you _ h in
    let (on, h2) = guard->>= (is_none (find (is_on c.id) t.registers)) counter_taken _ h1 in
    let made : (after, new) ≡ (t', row) = ok_injective _ _ h2 in
    subst (λ (x : Tables × RegisterSession). HasNoClash x.0.registers) made
      (
        new_no_clash new t.registers (find_none-All _ t.registers mine)
            (find_none-All _ t.registers on),
        wf,
      )

open_register-HasNoClash :
    (env : PosEnv) (b : BranchRows) (t t' : Tables) (id : ℕ) (s : SessionUser) (branch : ℕ)
    (opening : ℤ) (counter device : Option ℕ) (row : RegisterSession)
    → HasNoClash t.registers
    → open_register env b t id s branch opening counter device ≡ ok (t', row)
    → HasNoClash t'.registers
unfolding open_register
open_register-HasNoClash env b t t' id s branch opening counter device row wf h =
    let (u1, e1, h1) = >>=-ok (guard (leb_ℤ (pos 0) opening) negative_balance) _ h in
    let (u2, e2, h2) = >>=-ok (guard (b.is_branch branch) branch_not_found) _ h1 in
    let (u3, e3, h3) = >>=-ok (guard (b.has_access s.user_id branch) no_branch_access) _ h2 in
    let (c, picked, h4) = >>=-ok (pick_counter b branch counter) _ h3 in
    let (u5, e5, h5) =
      >>=-ok (guard (not (is_elsewhere env c device)) fallback_counter_elsewhere) _ h4 in
    claim_counter-HasNoClash t t' id s branch c (pos_part opening) row wf h5

pub close_open_register-steps :
    (env : PosEnv) (t : Tables) (d : DrawerRows) (w : ClosingWhere) (closing : Option ℤ) (now : ℕ)
    (x : Tables × RegisterSession × RegisterCash)
    → close_open_register env t d w closing now ≡ ok x
    → (r : RegisterSession) × (find (is_closing w) t.registers ≡ some r)
      × (x ≡ (
        record t {
          registers =
              map
                (update_row r.id
                  (closed_row (register_cash env t d r.id r.opening_balance) closing now))
                t.registers;
        },
        closed_row (register_cash env t d r.id r.opening_balance) closing now r,
        register_cash env t d r.id r.opening_balance,
      ))
unfolding close_open_register
close_open_register-steps env t d w closing now x h =
    let (r, e, h1) = >>=-ok (found (find (is_closing w) t.registers) open_register_not_found) _ h in
    (r, found-ok _ _ e, sym (ok_injective _ x h1))

close_open_register-HasNoClash :
    (env : PosEnv) (t : Tables) (d : DrawerRows) (w : ClosingWhere) (closing : Option ℤ) (now : ℕ)
    (x : Tables × RegisterSession × RegisterCash)
    → HasNoClash t.registers
    → close_open_register env t d w closing now ≡ ok x
    → HasNoClash x.0.registers
close_open_register-HasNoClash env t d w closing now x wf h =
    let (r, e, made) = close_open_register-steps env t d w closing now x h in
    subst (λ (y : Tables × RegisterSession × RegisterCash). HasNoClash y.0.registers) (sym made)
      (update-HasNoClash r.id (register_cash env t d r.id r.opening_balance) closing now t.registers
        wf)

-- What the service does to the registers, one request after another; each with its own session, rows
-- and time.
pub data Step : Tables → Tables → Type 0 where
  opened :
      (env : PosEnv) (b : BranchRows) (t t' : Tables) (id : ℕ) (s : SessionUser) (branch : ℕ)
      (opening : ℤ) (counter device : Option ℕ) (row : RegisterSession)
      → open_register env b t id s branch opening counter device ≡ ok (t', row)
      → Step t t'
  closed :
      (env : PosEnv) (t : Tables) (d : DrawerRows) (s : SessionUser) (closing : ℤ) (now : ℕ)
      (x : Tables × RegisterSession × RegisterCash)
      → close_register env t d s closing now ≡ ok x
      → Step t x.0
  closed_for :
      (env : PosEnv) (b : BranchRows) (t : Tables) (d : DrawerRows) (is_admin : Bool)
      (s : SessionUser) (register : ℕ) (closing : Option ℤ) (now : ℕ)
      (x : Tables × RegisterSession × RegisterCash)
      → close_register_for env b t d is_admin s register closing now ≡ ok x
      → Step t x.0

pub data Reaches : Tables → Tables → Type 0 where
  here : (t : Tables) → Reaches t t
  after : (t t' t'' : Tables) → Reaches t t' → Step t' t'' → Reaches t t''

close_register-HasNoClash :
    (env : PosEnv) (t : Tables) (d : DrawerRows) (s : SessionUser) (closing : ℤ) (now : ℕ)
    (x : Tables × RegisterSession × RegisterCash)
    → HasNoClash t.registers
    → close_register env t d s closing now ≡ ok x
    → HasNoClash x.0.registers
unfolding close_register
close_register-HasNoClash env t d s closing now x wf h =
    let (u1, e1, h1) = >>=-ok (guard (leb_ℤ (pos 0) closing) negative_balance) _ h in
    let (r, e2, h2) = >>=-ok (require_session_register_id s) _ h1 in
    let (b, e3, h3) = >>=-ok (require_session_branch_id s) _ h2 in
    close_open_register-HasNoClash env t d _ (some closing) now x wf h3

close_register_for-HasNoClash :
    (env : PosEnv) (b : BranchRows) (t : Tables) (d : DrawerRows) (is_admin : Bool)
    (s : SessionUser) (register : ℕ) (closing : Option ℤ) (now : ℕ)
    (x : Tables × RegisterSession × RegisterCash)
    → HasNoClash t.registers
    → close_register_for env b t d is_admin s register closing now ≡ ok x
    → HasNoClash x.0.registers
unfolding close_register_for
close_register_for-HasNoClash env b t d is_admin s register closing now x wf h =
    let (u1, e1, h1) = >>=-ok (guard is_admin admin_required) _ h in
    let (u2, e2, h2) = >>=-ok (guard (is_counted closing) negative_balance) _ h1 in
    let (row, e3, h3) =
      >>=-ok (found (find (λ r. r.id == register) t.registers) open_register_not_found) _ h2 in
    let (u4, e4, h4) =
      >>=-ok (guard (b.has_access s.user_id row.branch_id) no_branch_access) _ h3 in
    close_open_register-HasNoClash env t d _ closing now x wf h4

Step-HasNoClash : (t t' : Tables) → Step t t' → HasNoClash t.registers → HasNoClash t'.registers
Step-HasNoClash t t' (opened env b t1 t2 id s branch opening counter device row h) wf =
    open_register-HasNoClash env b t1 t2 id s branch opening counter device row wf h
Step-HasNoClash t t' (closed env t1 d s closing now x h) wf =
    close_register-HasNoClash env t1 d s closing now x wf h
Step-HasNoClash t t' (closed_for env b t1 d is_admin s register closing now x h) wf =
    close_register_for-HasNoClash env b t1 d is_admin s register closing now x wf h

-- However registers are opened and closed from tables in which it holds (as with none open), no two
-- open registers are on one counter, and no user has two open in one branch.
pub Reaches-HasNoClash :
    (t t' : Tables) → HasNoClash t.registers → Reaches t t' → HasNoClash t'.registers
Reaches-HasNoClash t t' wf (here u) = wf
Reaches-HasNoClash t t' wf (after t1 t2 t3 before step) =
    Step-HasNoClash t2 t3 step (Reaches-HasNoClash t1 t2 wf before)
