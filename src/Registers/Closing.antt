-- ===== src/Registers/Closing.antt =====
-- A register after `closeOpenRegister`.
use pointofsale.Base.{
  ℕ, ◌≡◌, refl, sym, subst, Bool, true, false, ◌&&◌, Option, none, some, List, [], ◌∷◌, map, ◌==◌,
  All, ok, err, ℤ, arith, Bool-cases, inl, inr,
}
use pointofsale.Shop.{
  register_closed, open_register_not_found, SessionUser, RegisterSession, Tables, PosEnv, find,
  is_open, open_counter, assert_register_open,
}
use pointofsale.Registers.{ClosingWhere, is_closing, closed_row, update_row, close_open_register}
use pointofsale.Drawer.{DrawerRows, RegisterCash, register_cash}
use pointofsale.Registers.Invariant.{close_open_register-steps}

find-some : {A : Type 0} (p : A → Bool) (xs : List A) (a : A) → find p xs ≡ some a → p a ≡ true
find-some p [] a h = ground arith
find-some p (x ∷ xs) a h = elim (Bool-cases (p x)) [
  | inl e ↦ let same : x ≡ a = ground arith in subst (λ y. p y ≡ true) same e
  | inr e ↦ find-some p xs a (rw e at h)
]

-- No row of an id is open.
abbrev AllClosed : ℕ → List RegisterSession → Type 0
AllClosed id = All (λ r. ((r.id == id) && is_open r) ≡ false)

update-AllClosed :
    (id : ℕ) (cash : RegisterCash) (closing : Option ℤ) (now : ℕ) (rs : List RegisterSession)
    → AllClosed id (map (update_row id (closed_row cash closing now)) rs)
update-AllClosed id cash closing now [] = tt
update-AllClosed id cash closing now (r ∷ rs) =
    (ground arith, update-AllClosed id cash closing now rs)

closed-open_counter :
    (id : ℕ) (rs : List RegisterSession)
    → AllClosed id rs
    → open_counter (find (λ r. r.id == id) rs) ≡ err register_closed
closed-open_counter id [] h = refl
closed-open_counter id (r ∷ rs) h = elim (Bool-cases (r.id == id)) [
  | inl e ↦ ground (arith, h.0)
  | inr e ↦ rw e (closed-open_counter id rs h.1)
]

closed-find :
    (w : ClosingWhere) (rs : List RegisterSession)
    → AllClosed w.id rs
    → find (is_closing w) rs ≡ none
closed-find w [] h = refl
closed-find w (r ∷ rs) h =
    let shut : is_closing w r ≡ false = ground (arith, h.0) in rw shut (closed-find w rs h.1)

close_open_register-shut :
    (env : PosEnv) (t : Tables) (d : DrawerRows) (w : ClosingWhere) (closing : Option ℤ) (now : ℕ)
    (x : Tables × RegisterSession × RegisterCash)
    → close_open_register env t d w closing now ≡ ok x
    → AllClosed w.id x.0.registers
close_open_register-shut env t d w closing now x h =
    let (r, e, made) = close_open_register-steps env t d w closing now x h in
    let at = find-some (is_closing w) t.registers r e in
    let same : r.id ≡ w.id = ground (arith, at) in
    subst (λ (y : Tables × RegisterSession × RegisterCash). AllClosed w.id y.0.registers) (sym made)
      (subst
        (λ id. AllClosed w.id (
          map
            (update_row id (closed_row (register_cash env t d r.id r.opening_balance) closing now))
            t.registers))
        (sym same)
        (update-AllClosed w.id (register_cash env t d r.id r.opening_balance) closing now
          t.registers))

-- Once a register is closed, a session on it takes no money, and the register cannot be closed again
-- by anyone.
pub close_open_register-refused :
    (env : PosEnv) (t : Tables) (d : DrawerRows) (w w' : ClosingWhere) (closing closing' : Option ℤ)
    (now now' : ℕ) (s : SessionUser) (x : Tables × RegisterSession × RegisterCash)
    → close_open_register env t d w closing now ≡ ok x
    → s.register_id ≡ some w.id
    → w'.id ≡ w.id
    → (assert_register_open x.0 s ≡ err register_closed)
      × (close_open_register env x.0 d w' closing' now' ≡ err open_register_not_found)
unfolding assert_register_open close_open_register
close_open_register-refused env t d w w' closing closing' now now' s x h on same =
    let shut = close_open_register-shut env t d w closing now x h in
    (
      simp on (closed-open_counter w.id x.0.registers shut),
      rw (closed-find w' x.0.registers (rw same shut)) refl,
    )
