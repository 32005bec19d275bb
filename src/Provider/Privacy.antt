-- ===== src/Provider/Privacy.antt =====
-- providers.py, `known_but_unhealthy`: what it answers, and what it may not reveal.

use compute_connect.Prelude.{
  String, Bool, true, false, not, ◌≡◌, refl, ◌↔◌, inl, inr, List, [], ◌∷◌, arith, Bool-cases, Memᴰ,
  any, select, str_eq, eq_iff, any_of_mem, mem_of_any,
}
use compute_connect.Engine.{ModelInfo}
use compute_connect.Provider.Snapshot.{
  Entry, ProviderRegistry, lists, is_known_down, known_but_unhealthy,
}

-- the model was in the last healthy inventory of a provider that is down and may be used
pub record IsKnownDown (model_id : String) (cloud_permitted : Bool) (e : Entry) : Type 0 where
  pub permitted : e.spec.placement_class ≡ "cloud" → cloud_permitted ≡ true
  pub down : e.cache.healthy ≡ false
  pub listed : (m : ModelInfo) × Memᴰ m e.cache.last_known_models × (m.id ≡ model_id)

lists_iff :
    (model_id : String) (ms : List ModelInfo)
    → (lists model_id ms ≡ true) ↔ ((m : ModelInfo) × Memᴰ m ms × (m.id ≡ model_id))
lists_iff model_id ms =
    let p : ModelInfo → Bool = λ m. str_eq m.id model_id in
    (
      λ h. let (m, i, e) = mem_of_any p ms h in (m, i, (eq_iff m.id model_id).0 e),
      λ (m, i, e). any_of_mem p ms i ((eq_iff m.id model_id).1 e),
    )

is_known_down_iff :
    (model_id : String) (permitted : Bool) (e : Entry)
    → (is_known_down model_id permitted e ≡ true) ↔ IsKnownDown model_id permitted e
unfolding is_known_down
is_known_down_iff model_id permitted e =
    let cloud = eq_iff e.spec.placement_class "cloud" in
    let listed = lists_iff model_id e.cache.last_known_models in
    (
      λ h. record {
        permitted = λ c. let t = cloud.1 c in ground arith;
        down = ground arith;
        listed = listed.0 (ground arith);
      },
      λ k. elim (Bool-cases (str_eq e.spec.placement_class "cloud")) [
        | inl c ↦ rw (c, k.permitted (cloud.0 c), k.down) (listed.1 k.listed)
        | inr c ↦ rw (c, k.down) (listed.1 k.listed)
      ],
    )

-- The answer is yes exactly when some provider that is down, and that is no cloud provider unless
-- cloud is permitted, listed the model when it was last healthy.
pub known_but_unhealthy_iff :
    (reg : ProviderRegistry) (model_id : String) (cloud_permitted : Bool)
    → (known_but_unhealthy reg model_id cloud_permitted ≡ true)
      ↔ ((e : Entry) × Memᴰ e reg.entries × IsKnownDown model_id cloud_permitted e)
unfolding known_but_unhealthy
known_but_unhealthy_iff reg model_id permitted =
    let p = is_known_down model_id permitted in
    (
      λ h.
          let (e, i, t) = mem_of_any p reg.entries h in
          (e, i, (is_known_down_iff model_id permitted e).0 t),
      λ (e, i, k). any_of_mem p reg.entries i ((is_known_down_iff model_id permitted e).1 k),
    )

abbrev pub is_not_cloud : Entry → Bool
is_not_cloud e = not (str_eq e.spec.placement_class "cloud")

private_answer :
    (model_id : String) (es : List Entry)
    → any (is_known_down model_id false) es
      ≡ any (is_known_down model_id false) (select is_not_cloud es)
unfolding is_known_down
private_answer model_id [] = refl
private_answer model_id (e ∷ es) = ground (arith, private_answer model_id es)

-- Where cloud is not permitted, the answer is the one of a registry with no cloud provider: no
-- cloud provider's inventory or health shows in it.
pub known_but_unhealthy-select :
    (reg : ProviderRegistry) (model_id : String)
    → known_but_unhealthy reg model_id false
      ≡ known_but_unhealthy
          (record reg { entries = select is_not_cloud reg.entries })
          model_id
          false
unfolding known_but_unhealthy
known_but_unhealthy-select reg model_id = private_answer model_id reg.entries
