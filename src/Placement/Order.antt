-- ===== src/Placement/Order.antt =====
-- placement.py, the sort keys: tuples in Python's order, first component first. A bool counts as 0
-- or 1, and the preference is a pair of numbers in each of its three forms.
use Prim.Native.String.{compare as compare_text}
use text.Mathlib.TextEquality.{path_by_compare}
use compute_connect.Prelude.{
  ℤ, compare_ℤ, Ordering, String, Bool, true, false, ◌≡◌, arith, IsTotal, ◌≤ℤ◌, ap, ◌∙◌,
}
use compute_connect.Prelude.Compare.{
  then_by, is_not_gt, compare_bool, swap, IsOrder, lex-IsOrder, on-IsOrder, bool_IsOrder,
  int_IsOrder, text_IsOrder,
}

pub record ModelKey : Type 0 where
  pub not_loaded : Bool
  pub window : ℤ
  pub id : String

unfoldable pub compare_model : ModelKey → ModelKey → Ordering
compare_model a b =
    then_by (compare_bool a.not_loaded b.not_loaded)
      (then_by (compare_ℤ a.window b.window) (compare_text a.id b.id))

unfoldable pub model_leb : ModelKey → ModelKey → Bool
unfolding compare_model
model_leb a b = is_not_gt (compare_model a b)

pub record RankKey : Type 0 where
  pub local_first : Bool
  pub first_preference : ℤ
  pub second_preference : ℤ
  pub not_loaded : Bool
  pub queue : ℤ
  pub id : String

unfoldable pub compare_rank : RankKey → RankKey → Ordering
compare_rank a b = then_by (compare_bool a.local_first b.local_first) (
    then_by (compare_ℤ a.first_preference b.first_preference) (
      then_by (compare_ℤ a.second_preference b.second_preference) (
        then_by (compare_bool a.not_loaded b.not_loaded)
          (then_by (compare_ℤ a.queue b.queue) (compare_text a.id b.id)))))

unfoldable pub rank_leb : RankKey → RankKey → Bool
unfolding compare_rank
rank_leb a b = is_not_gt (compare_rank a b)

compare_model-IsOrder : IsOrder compare_model
unfolding compare_model
compare_model-IsOrder =
    lex-IsOrder (on-IsOrder (λ k. k.not_loaded) bool_IsOrder)
      (lex-IsOrder (on-IsOrder (λ k. k.window) int_IsOrder) (on-IsOrder (λ k. k.id) text_IsOrder))

compare_rank-IsOrder : IsOrder compare_rank
unfolding compare_rank
compare_rank-IsOrder = lex-IsOrder (on-IsOrder (λ k. k.local_first) bool_IsOrder) (
    lex-IsOrder (on-IsOrder (λ k. k.first_preference) int_IsOrder) (
      lex-IsOrder (on-IsOrder (λ k. k.second_preference) int_IsOrder) (
        lex-IsOrder (on-IsOrder (λ k. k.not_loaded) bool_IsOrder) (
          lex-IsOrder (on-IsOrder (λ k. k.queue) int_IsOrder)
            (on-IsOrder (λ k. k.id) text_IsOrder)))))

chain_not_gt :
    (x y z : Ordering)
    → is_not_gt x ≡ true
    → is_not_gt y ≡ true
    → z ≡ then_by x y
    → is_not_gt z ≡ true
chain_not_gt x y z h k e = ground arith

-- An order on keys is a total order, up to ties, on what has such keys.
pub IsTotal_of_IsOrder {ℓ κ} :
    {A : Type ℓ} {K : Type κ} {cmp : K → K → Ordering} (key : A → K)
    → IsOrder cmp
    → IsTotal (λ a b. is_not_gt (cmp (key a) (key b)))
IsTotal_of_IsOrder {cmp = cmp} key h = record {
  refl_le = λ a. rw (h.self (key a));
  flip =
      λ a b e. flip_not_gt (cmp (key a) (key b)) (cmp (key b) (key a)) e (h.flip (key a) (key b));
  trans_le = λ a b c p q.
      chain_not_gt (cmp (key a) (key b)) (cmp (key b) (key c)) (cmp (key a) (key c)) p q
        (h.chain (key a) (key b) (key c) p q);
}
  where
    flip_not_gt : (x y : Ordering) → is_not_gt x ≡ false → y ≡ swap x → is_not_gt y ≡ true
    flip_not_gt x y e f = ground arith

pub model_leb-IsTotal {ℓ} :
    {A : Type ℓ} (key : A → ModelKey) → IsTotal (λ a b. model_leb (key a) (key b))
unfolding model_leb
model_leb-IsTotal key = IsTotal_of_IsOrder key compare_model-IsOrder

pub rank_leb-IsTotal {ℓ} :
    {A : Type ℓ} (key : A → RankKey) → IsTotal (λ a b. rank_leb (key a) (key b))
unfolding rank_leb
rank_leb-IsTotal key = IsTotal_of_IsOrder key compare_rank-IsOrder

then_by_eq : (x y : Ordering) → then_by x y ≡ Ordering.eq → (x ≡ Ordering.eq) × (y ≡ Ordering.eq)
then_by_eq x y h = ground arith

both_not_gt :
    (x y : Ordering) → is_not_gt x ≡ true → is_not_gt y ≡ true → y ≡ swap x → x ≡ Ordering.eq
both_not_gt x y h k e = ground arith

-- Two keys that rank no later than each other have one identifier.
pub rank_leb_antisymm : (a b : RankKey) → rank_leb a b ≡ true → rank_leb b a ≡ true → a.id ≡ b.id
unfolding rank_leb compare_rank
rank_leb_antisymm a b h k =
    let e = both_not_gt (compare_rank a b) (compare_rank b a) h k (compare_rank-IsOrder.flip a b) in
    let (_, e1) = then_by_eq (compare_bool a.local_first b.local_first) _ e in
    let (_, e2) = then_by_eq (compare_ℤ a.first_preference b.first_preference) _ e1 in
    let (_, e3) = then_by_eq (compare_ℤ a.second_preference b.second_preference) _ e2 in
    let (_, e4) = then_by_eq (compare_bool a.not_loaded b.not_loaded) _ e3 in
    let (_, e5) = then_by_eq (compare_ℤ a.queue b.queue) _ e4 in path_by_compare a.id b.id e5

not_gt_head : (x y : Ordering) → is_not_gt (then_by x y) ≡ true → is_not_gt x ≡ true
not_gt_head x y h = ground arith

not_gt_tail :
    (x y : Ordering) → x ≡ Ordering.eq → is_not_gt (then_by x y) ≡ true → is_not_gt y ≡ true
not_gt_tail x y e h = ground arith

-- What the first two components of a key say when it ranks no later than another.
module _ (a b : RankKey) (h : rank_leb a b ≡ true) where
  pub local_first_of_rank_leb : b.local_first ≡ false → a.local_first ≡ false
  unfolding rank_leb compare_rank
  local_first_of_rank_leb e =
      let n = not_gt_head (compare_bool a.local_first b.local_first) _ h in ground arith

  pub first_preference_of_rank_leb :
      a.local_first ≡ b.local_first → a.first_preference ≤ℤ b.first_preference
  unfolding rank_leb compare_rank
  first_preference_of_rank_leb e =
      let q : compare_bool a.local_first b.local_first ≡ Ordering.eq =
        ap (λ x. compare_bool x b.local_first) e ∙ bool_IsOrder.self b.local_first in
      let n =
        not_gt_head (compare_ℤ a.first_preference b.first_preference) _ (not_gt_tail _ _ q h) in
      ground arith
