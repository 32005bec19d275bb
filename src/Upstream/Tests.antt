-- ===== src/Upstream/Tests.antt =====
-- The theorems on the stream of one piece, after three steps.
use compute_connect.Prelude.{◌+◌, ◌*◌, ◌≤◌, ◌++◌, ◌≡◌, ◌⊎◌, refl, [], ◌∷◌, none, List, length}
use compute_connect.Json.{str}
use compute_connect.Upstream.{
  Message, delta, done, exhausted, feed, Upstream, start, Step, pull, put, get, Run, here, next,
  held_list,
}
use compute_connect.Upstream.Delivery.{Run-delivery}
use compute_connect.Upstream.Progress.{Run-progress}

abbrev messages : List Message
messages = delta (str "a") ∷ done ∷ []

feeds_in_order : feed (str "a" ∷ []) exhausted ≡ messages
unfolding feed
feeds_in_order = refl

abbrev after_one : Upstream
after_one = record { source = done ∷ []; held = none; queue = []; delivered = delta (str "a") ∷ [] }

one_delivered : Run (start messages) 3 after_one
one_delivered =
    next
      (next (next here (pull (delta (str "a")) (done ∷ []) refl refl refl))
        (put (delta (str "a")) refl refl refl))
      (get (delta (str "a")) [] refl refl)

Run-delivery_example :
    (after_one.delivered ++ (after_one.queue ++ (held_list after_one.held ++ after_one.source))
      ≡ messages)
    × (length messages ≤ length after_one.source + length after_one.delivered + 2)
Run-delivery_example = Run-delivery one_delivered

Run-progress_example :
    (3 ≤ 3 * length messages)
    × (((u : Upstream) × Step after_one u) ⊎ (after_one.delivered ≡ messages))
Run-progress_example = Run-progress one_delivered
