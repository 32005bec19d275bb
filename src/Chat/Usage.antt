-- ===== src/Chat/Usage.antt =====
-- app.py, `v1_chat_completions`: the token counts of a completion.
use compute_connect.Prelude.{
  ℕ, ◌+◌, ◌≤◌, pos, ◌+ℤ◌, ◌≤ℤ◌, pos-add, String, false, ◌&&◌, ◌≡◌, sym, arith,
}
use compute_connect.Json.{Items, Result, ok, err, ◌>>=◌}
use compute_connect.Provider.Registry.{Texts, has}
use compute_connect.Chat.Complete.{
  Completion, Usage, completion_estimate, prompt_estimate, estimated_counts, usage_of,
}

completion_estimate-pos : (s : String) → 1 ≤ completion_estimate s
unfolding completion_estimate
completion_estimate-pos s = ground arith

abbrev IsEstimate : Usage → Type 0
IsEstimate u =
    (pos 1 ≤ℤ u.completion_tokens) × (u.total_tokens ≡ u.prompt_tokens +ℤ u.completion_tokens)

module _ (texts : Texts) (messages : Items) (reply : String) where
  estimated_cases :
      (prompt : Result ℕ) {u : Usage}
      → (prompt >>= λ n. ok (record {
        prompt_tokens = pos n;
        completion_tokens = pos (completion_estimate reply);
        total_tokens = pos (n + completion_estimate reply);
      }))
        ≡ ok u
      → IsEstimate u
  estimated_cases (ok n) {u} e =
      let same : record {
        prompt_tokens = pos n;
        completion_tokens = pos (completion_estimate reply);
        total_tokens = pos (n + completion_estimate reply);
      }
          ≡ u =
        cc in
      rw (← same)
        (omega (arith, completion_estimate-pos reply), sym (pos-add n (completion_estimate reply)))
  estimated_cases (err exc) e = cc

-- Where the upstream reports no counts, or one of them only, the usage is an estimate: it counts at
-- least one token of completion, and its total is the sum of its parts.
pub usage_of-estimate :
    (c : Completion) (reply : String) (u : Usage)
    → (has c.real_usage "prompt_tokens" && has c.real_usage "completion_tokens") ≡ false
    → usage_of c reply ≡ ok u
    → (pos 1 ≤ℤ u.completion_tokens) × (u.total_tokens ≡ u.prompt_tokens +ℤ u.completion_tokens)
unfolding usage_of estimated_counts
usage_of-estimate c reply u unreported e =
    estimated_cases c.texts c.messages reply (prompt_estimate c.texts c.messages)
      (rw unreported at e)
