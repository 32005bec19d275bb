-- ===== src/Engine/Probing.antt =====
-- src/computeconnect/engines.py: `LlamaCppEngine.health` and `list_models`, on what httpx answers.
use compute_connect.Prelude.{ℕ, pos, String, true, List, [], ◌∷◌, strip, is_nonempty, if◌then◌else◌}
use compute_connect.Json.{
  Value, int, str, arr, obj, Items, no_item, item, Fields, end, field, PyError, attribute_error,
  type_error, value_error, Result, ok, err, ◌>>=◌, or_else, fields_get,
}
use compute_connect.Number.{Numerals, to_int}
use compute_connect.Engine.{ModelInfo, LlamaCppEngine}
use compute_connect.Provider.Registry.{Answer, returned, raised, Texts}
use compute_connect.Chat.{text_of}
use compute_connect.Chat.Complete.{get_or}

-- what a GET gives: an exception, an answer for which `raise_for_status` raises, or a body, as JSON where
-- it is JSON
pub data Got : Type 0 where
  failed_request : String → Got
  body_json : Value → Got
  body_text : String → Got

-- `s[:n]`
unfoldable pub first_chars : ℕ → String → String
first_chars ℕ.zero s = String.[]
first_chars (ℕ.suc n) String.[] = String.[]
first_chars (ℕ.suc n) (String.◌∷◌ c s) = String.◌∷◌ c (first_chars n s)

-- `health`: a body that is no JSON is a healthy answer
unfoldable pub llama_health : Got → Answer Value
unfolding first_chars
llama_health (failed_request exc) = raised exc
llama_health (body_json v) = returned v
llama_health (body_text s) =
    returned (obj (field "status" (str "ok") (field "raw" (str (first_chars 200 (strip s))) end)))

abbrev pub or_zero : Value → Value
or_zero v = or_else v (int (pos 0))

-- one entry of the list, of which `meta` is a dict
unfoldable pub listed_model : Numerals → Texts → List String → Fields → Fields → Result ModelInfo
unfolding text_of
listed_model numerals texts tags entry meta =
    to_int numerals (or_zero (get_or meta "n_ctx" (int (pos 0)))) >>= λ context_tokens. ok (record {
      id = text_of texts (get_or entry "id" (str ""));
      context_tokens = context_tokens;
      capabilities = tags;
      loaded = true;
      metadata =
          field "runtime" (str "llama.cpp")
            (field "owned_by" (get_or entry "owned_by" (str "")) end);
    })

abbrev pub as_dict : Value → Result Fields
as_dict (obj fs) = ok fs
as_dict _ = err attribute_error

unfoldable pub listed_models : Numerals → Texts → List String → Items → Result (List ModelInfo)
unfolding listed_model
listed_models numerals texts tags no_item = ok []
listed_models numerals texts tags (item v vs) = as_dict v >>= λ entry.
    as_dict (or_else (fields_get entry "meta") (obj end)) >>= λ meta.
    listed_model numerals texts tags entry meta >>= λ m.
    listed_models numerals texts tags vs >>= λ ms. ok (m ∷ ms)

-- what iterating over `data` does: the items of a text or a dict have no `get`
unfoldable pub models_of : Numerals → Texts → List String → Value → Result (List ModelInfo)
unfolding listed_models
models_of numerals texts tags (arr vs) = listed_models numerals texts tags vs
models_of numerals texts tags (obj end) = ok []
models_of numerals texts tags (obj (field k v fs)) = err attribute_error
models_of numerals texts tags (str s) = if is_nonempty s then err attribute_error else ok []
models_of numerals texts tags _ = err type_error

unfoldable pub parse_models : Numerals → Texts → List String → Value → Result (List ModelInfo)
unfolding models_of
parse_models numerals texts tags body =
    as_dict body >>= λ fs. models_of numerals texts tags (get_or fs "data" (arr no_item))

abbrev pub as_answer {ℓ} : {A : Type ℓ} → (PyError → String) → Result A → Answer A
as_answer exception_text (ok a) = returned a
as_answer exception_text (err e) = raised (exception_text e)

-- `list_models`
unfoldable pub llama_models :
    Numerals → Texts → (PyError → String) → LlamaCppEngine → Got → Answer (List ModelInfo)
unfolding parse_models
llama_models numerals texts exception_text e (failed_request exc) = raised exc
llama_models numerals texts exception_text e (body_text s) = raised (exception_text value_error)
llama_models numerals texts exception_text e (body_json v) =
    as_answer exception_text (parse_models numerals texts e.capability_tags v)
