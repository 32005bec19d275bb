-- ===== src/Bus/Tests.antt =====
-- Tests of the publisher.
use Prim.Native.String.{count}
use compute_connect.Prelude.{◌≤◌, ◌≡◌, refl, some, none, false, arith}
use compute_connect.Bus.{init, truncate_reason, text_or_empty, rstrip_slashes, shortened, prefix}
use compute_connect.Bus.Reasons.{count-truncate_reason}

program : Unit {0}
unfolding init truncate_reason text_or_empty shortened prefix rstrip_slashes
program = tt

disabled_without_token : (init (some "http://bus") none).enabled ≡ false
unfolding program
disabled_without_token = refl

strips_slashes : (init (some "http://bus//") (some "t")).bus_url ≡ "http://bus"
unfolding program
strips_slashes = refl

truncates : truncate_reason (some "abcdef") 4 ≡ "abc…"
unfolding program
truncates = refl

count-truncate_reason_example :
    (count (truncate_reason (some "abcdef") 4) ≤ 4)
    × (count (text_or_empty (some "abcdef")) ≤ 4
        → truncate_reason (some "abcdef") 4 ≡ text_or_empty (some "abcdef"))
count-truncate_reason_example = count-truncate_reason (some "abcdef") 4 (omega arith)
