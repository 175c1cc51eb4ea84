-- ===== src/Vouchers/Coupled.antt =====
-- The type and the amount of a voucher go together, whatever src/modules/discount-vouchers is asked for.
use openeos_api.Base.{
  ℕ, ◌≡◌, refl, subst, inl, inr, ℤ, arith, Bool, true, false, ◌||◌, Option, none, some, List, [],
  ◌∷◌, ◌==◌, get, put, get_or, is_some, get-put_cases, get-drop_row, Bool-cases,
}
use openeos_api.Entities.{User, DiscountVoucher, DiscountVoucherType}
use openeos_api.Store.{Store, M, Result, err, Exception, ◌>>=◌}
use openeos_api.Store.Reads.{
  Reads, raises, returns, Reads-bind, Reads-or_raise, after_reads, after_some,
}
use openeos_api.Access.{check_membership}
use openeos_api.Organizations.{check_permission}
use openeos_api.Organizations.Reads.{Reads-check_membership, Reads-check_permission}
use openeos_api.Vouchers.{
  CreateDiscountVoucherDto, UpdateDiscountVoucherDto, normalize_amount, save_voucher,
  create_voucher, find_voucher, update_voucher, remove_voucher, new_voucher, revised, next_amount,
  voucher_in,
}

-- A fixed voucher has an amount, a manual one has none.
abbrev pub IsCoupled : DiscountVoucherType → Option ℤ → Type 0
IsCoupled DiscountVoucherType.fixed amount = (a : ℤ) × (amount ≡ some a)
IsCoupled DiscountVoucherType.manual amount = amount ≡ none

pub record AllCoupled (rows : List (ℕ × DiscountVoucher)) : Type 0 where
  pub coupled : (vid : ℕ) (v : DiscountVoucher) → get vid rows ≡ some v → IsCoupled v.kind v.amount

abbrev After {ℓ} : {A : Type ℓ} → Result A × Store → Type 0
After r = AllCoupled r.1.vouchers

saved :
    (vid : ℕ) (v : DiscountVoucher) (rows : List (ℕ × DiscountVoucher))
    → AllCoupled rows
    → IsCoupled v.kind v.amount
    → AllCoupled (put vid v rows)
saved vid v rows a c = record {
  coupled = λ k w h. elim (get-put_cases vid k v w rows h) [
    | inl (_, _, is_v) ↦ rw is_v c
    | inr (_, old) ↦ a.coupled k w old
  ];
}

-- The amount of a type is coupled to it, or refused.
normalize_amount-IsCoupled :
    {B : Type 0} (P : Result B × Store → Type 0) (kind : DiscountVoucherType) (amount : Option ℤ)
    (f : Option ℤ → M B) (s : Store)
    → ((x : Exception) → P (err x, s))
    → ((a : Option ℤ) → IsCoupled kind a → P (f a s))
    → P ((normalize_amount kind amount >>= f) s)
unfolding normalize_amount
normalize_amount-IsCoupled P DiscountVoucherType.manual amount f s bad good = good none refl
normalize_amount-IsCoupled P DiscountVoucherType.fixed none f s bad good = bad _
normalize_amount-IsCoupled P DiscountVoucherType.fixed (some a) f s bad good =
    good (some a) (a, refl)

create_voucher-AllCoupled :
    (org : ℕ) (dto : CreateDiscountVoucherDto) (user : User) (s : Store)
    → AllCoupled s.vouchers
    → AllCoupled (create_voucher org dto user s).1.vouchers
unfolding create_voucher save_voucher
create_voucher-AllCoupled org dto user s v =
    after_reads After (check_permission (λ p. p.discounts) org user.id) _ s (λ x. v)
      (Reads-check_permission (λ p. p.discounts) org user.id s)
      λ _ _.
        normalize_amount-IsCoupled After dto.kind dto.amount _ s (λ x. v)
          λ a c. saved s.next_id (new_voucher org dto a) s.vouchers v c

Reads-find_voucher : (org vid : ℕ) (user : User) (s : Store) → Reads (find_voucher org vid user s) s
unfolding find_voucher
Reads-find_voucher org vid user s =
    Reads-bind (check_membership org user.id) _ s (Reads-check_membership org user.id s)
      λ _ _. Reads-or_raise (voucher_in org (get vid s.vouchers)) _ s

voucher_in-some :
    (org : ℕ) (o : Option DiscountVoucher) (v : DiscountVoucher)
    → voucher_in org o ≡ some v
    → o ≡ some v
voucher_in-some org none v h = cc
voucher_in-some org (some w) v h = elim (Bool-cases (w.organization_id == org)) [
  | inl y ↦ rw y at h
  | inr n ↦ let nothing = rw n at h in cc
]

after_voucher :
    {B : Type 0} (P : Result B × Store → Type 0) (org vid : ℕ) (user : User)
    (f : DiscountVoucher → M B) (s : Store)
    → ((x : Exception) → P (err x, s))
    → ((v : DiscountVoucher) → get vid s.vouchers ≡ some v → P (f v s))
    → P ((find_voucher org vid user >>= f) s)
unfolding find_voucher
after_voucher P org vid user f s bad good = elim (Reads-check_membership org user.id s) [
  | raises x e ↦ rw e (bad x)
  | returns m e ↦ rw e (
      after_some P (voucher_in org (get vid s.vouchers)) _ f s (bad _)
        λ v h. good v (voucher_in-some org (get vid s.vouchers) v h))
]

neither : (a b : Bool) → (a || b) ≡ false → a ≡ false
neither a b h = ground arith

kept_kind :
    (o : Option DiscountVoucherType) (k : DiscountVoucherType) → is_some o ≡ false → k ≡ get_or o k
kept_kind none k h = refl
kept_kind (some j) k h = cc

next_amount-IsCoupled :
    {B : Type 0} (P : Result B × Store → Type 0) (dto : UpdateDiscountVoucherDto)
    (v : DiscountVoucher) (b : Bool) (f : Option ℤ → M B) (s : Store)
    → (is_some dto.kind || is_some dto.amount) ≡ b
    → IsCoupled v.kind v.amount
    → ((x : Exception) → P (err x, s))
    → ((a : Option ℤ) → IsCoupled (get_or dto.kind v.kind) a → P (f a s))
    → P ((next_amount dto v b >>= f) s)
unfolding next_amount
next_amount-IsCoupled P dto v true f s h c bad good =
    normalize_amount-IsCoupled P (get_or dto.kind v.kind) (get_or dto.amount v.amount) f s bad good
next_amount-IsCoupled P dto v false f s h c bad good = good v.amount (
    subst (λ k. IsCoupled k v.amount)
      (kept_kind dto.kind v.kind (neither (is_some dto.kind) (is_some dto.amount) h)) c)

update_voucher-AllCoupled :
    (org vid : ℕ) (dto : UpdateDiscountVoucherDto) (user : User) (s : Store)
    → AllCoupled s.vouchers
    → AllCoupled (update_voucher org vid dto user s).1.vouchers
unfolding update_voucher save_voucher
update_voucher-AllCoupled org vid dto user s all =
    after_reads After (check_permission (λ p. p.discounts) org user.id) _ s (λ x. all)
      (Reads-check_permission (λ p. p.discounts) org user.id s)
      λ _ _.
        after_voucher After org vid user _ s (λ x. all)
          λ v found.
            next_amount-IsCoupled After dto v (is_some dto.kind || is_some dto.amount) _ s refl
              (all.coupled vid v found) (λ x. all)
              λ a c. saved vid (revised dto a v) s.vouchers all c

remove_voucher-AllCoupled :
    (org vid : ℕ) (user : User) (s : Store)
    → AllCoupled s.vouchers
    → AllCoupled (remove_voucher org vid user s).1.vouchers
unfolding remove_voucher
remove_voucher-AllCoupled org vid user s all =
    after_reads After (check_permission (λ p. p.discounts) org user.id) _ s (λ x. all)
      (Reads-check_permission (λ p. p.discounts) org user.id s)
      λ _ _.
        after_voucher After org vid user _ s (λ x. all)
          λ v found. record {
            coupled = λ k w h. all.coupled k w (get-drop_row vid k s.vouchers w h);
          }

-- The methods of DiscountVouchersService that write.
pub data VoucherCall : Type 0 where
  create_voucher_call : CreateDiscountVoucherDto → VoucherCall
  update_voucher_call : ℕ → UpdateDiscountVoucherDto → VoucherCall
  remove_voucher_call : ℕ → VoucherCall

unfoldable pub serve_vouchers : List (ℕ × User × VoucherCall) → Store → Store
serve_vouchers [] s = s
serve_vouchers ((org, user, create_voucher_call dto) ∷ rs) s =
    serve_vouchers rs (create_voucher org dto user s).1
serve_vouchers ((org, user, update_voucher_call vid dto) ∷ rs) s =
    serve_vouchers rs (update_voucher org vid dto user s).1
serve_vouchers ((org, user, remove_voucher_call vid) ∷ rs) s =
    serve_vouchers rs (remove_voucher org vid user s).1

-- After any sequence of calls of the voucher service, from a store where it is so: a fixed voucher has
-- an amount and a manual one has none.
pub serve_vouchers-AllCoupled :
    (calls : List (ℕ × User × VoucherCall)) (s : Store)
    → AllCoupled s.vouchers
    → AllCoupled (serve_vouchers calls s).vouchers
unfolding serve_vouchers
serve_vouchers-AllCoupled [] s all = all
serve_vouchers-AllCoupled ((org, user, create_voucher_call dto) ∷ rs) s all =
    serve_vouchers-AllCoupled rs _ (create_voucher-AllCoupled org dto user s all)
serve_vouchers-AllCoupled ((org, user, update_voucher_call vid dto) ∷ rs) s all =
    serve_vouchers-AllCoupled rs _ (update_voucher-AllCoupled org vid dto user s all)
serve_vouchers-AllCoupled ((org, user, remove_voucher_call vid) ∷ rs) s all =
    serve_vouchers-AllCoupled rs _ (remove_voucher-AllCoupled org vid user s all)
