-- ===== src/Engine/Simulated.antt =====
-- src/computeconnect/engines.py: `SimulatedCloudEngine`. The decimal text of a number is an argument.
use Prim.Native.String.{◌++◌ as append}
use compute_connect.Prelude.{
  ℕ, zero, suc, ◌+◌, ◌≤◌, ◌<◌, ℤ, pos, negsuc, pos_part, leb_ℤ, ltb_ℤ, String, Bool, false, Option,
  none, some, List, [], ◌∷◌, length, if◌then◌else◌, arith, Bool-cases, inl, inr,
}
use compute_connect.Json.{Value, str, obj, end, field}
use compute_connect.Engine.{ModelInfo, SimulatedCloudEngine}
use compute_connect.Provider.Registry.{Answer, returned, raised}
use compute_connect.Upstream.{Ending, exhausted, failed}

abbrev pub cloud_outage : String
cloud_outage = "simulated cloud outage"

-- `health`
unfoldable pub simulated_health : SimulatedCloudEngine → Answer Value
simulated_health e =
    if e.fail_health then raised cloud_outage else returned (obj (field "status" (str "ok") end))

-- `list_models`
unfoldable pub simulated_models : SimulatedCloudEngine → Answer (List ModelInfo)
simulated_models e = if e.fail_health then raised cloud_outage else returned e.models

-- `n` of `stream_chat`
unfoldable pub token_count : SimulatedCloudEngine → ℤ → ℤ
token_count e max_tokens =
    if ltb_ℤ (pos 0) max_tokens
    then (if leb_ℤ e.response_tokens max_tokens then e.response_tokens else max_tokens)
    else e.response_tokens

abbrev pub fails_at : Option ℤ → ℕ → Bool
fails_at none i = false
fails_at (some k) i = leb_ℤ k (pos i)

abbrev pub token : (ℕ → String) → ℕ → String
token decimal i = append "sim-token-" (append (decimal i) " ")

-- the pieces, and how the stream ends
pub record Spoken : Type 0 where
  pub pieces : List String
  pub ending : Ending

-- the loop, with k rounds left at number i
unfoldable pub speak : (ℕ → String) → Option ℤ → ℕ → ℕ → Spoken
speak decimal fail_after zero i = record { pieces = []; ending = exhausted }
speak decimal fail_after (suc k) i =
    let rest = speak decimal fail_after k (i + 1) in
    if fails_at fail_after i
    then record { pieces = []; ending = failed "simulated mid-stream provider failure" }
    else record { pieces = token decimal i ∷ rest.pieces; ending = rest.ending }

-- `stream_chat`
unfoldable pub speak_tokens : (ℕ → String) → SimulatedCloudEngine → ℤ → Spoken
unfolding speak token_count
speak_tokens decimal e max_tokens =
    if e.fail_health
    then record { pieces = []; ending = failed cloud_outage }
    else speak decimal e.fail_after_tokens (pos_part (token_count e max_tokens)) 0

speak-length :
    (decimal : ℕ → String) (f : Option ℤ) (k i : ℕ) → length (speak decimal f k i).pieces ≤ k
unfolding speak
speak-length decimal f zero i = omega arith
speak-length decimal f (suc k) i = elim (Bool-cases (fails_at f i)) [
  | inl e ↦ rw e (omega arith)
  | inr e ↦ rw e (omega (arith, speak-length decimal f k (i + 1)))
]

smaller :
    (r : ℤ) (n : ℕ)
    → 0 < n
    → pos_part (if ltb_ℤ (pos 0) (pos n) then (if leb_ℤ r (pos n) then r else pos n) else r) ≤ n
smaller (pos r) n p = ground arith
smaller (negsuc r) n p = ground arith

-- The simulated cloud sends no more pieces than the request allows, where it sets a limit above 0.
pub speak_tokens-length :
    (decimal : ℕ → String) (e : SimulatedCloudEngine) (n : ℕ)
    → 0 < n
    → length (speak_tokens decimal e (pos n)).pieces ≤ n
unfolding speak_tokens token_count
speak_tokens-length decimal e n p = elim (Bool-cases e.fail_health) [
  | inl f ↦ rw f (omega arith)
  | inr f ↦ rw f (
      omega (
        arith,
        smaller e.response_tokens n p,
        speak-length decimal e.fail_after_tokens (pos_part (token_count e (pos n))) 0,
      ))
]
