-- ===== src/Session/Reading.antt =====
-- app.py, the loop of a generating handler: what it counts and yields of what it reads.
use mathlib.Core.List.{append_assoc, append-nil}
use text.Mathlib.TextLemmas.{nil-append, cons-append}
use Prim.Native.Char.{code}
use Prim.Native.String.{◌++◌ as append}
use compute_connect.Prelude.{
  String, List, [], ◌∷◌, ◌++◌, length, length-append, ◌≡◌, refl, sym, ap, ◌∙◌, arith,
}
use compute_connect.Wire.{Codes, codes, escape}
use compute_connect.Wire.Escape.{escape-append}
use compute_connect.Upstream.{item, finished, cancelled, raised}
use compute_connect.Session.{
  Happening, replied, client_gone, Progress, no_progress, count_item, read_all,
}
use compute_connect.Session.Generate.{delta_chunks}

-- `"".join(parts)`
unfoldable pub joined : List String → String
joined [] = ""
joined (s ∷ ss) = append s (joined ss)

pub codes-append : (s t : String) → codes (append s t) ≡ codes s ++ codes t
codes-append String.[] t = ap codes (nil-append t)
codes-append (String.◌∷◌ c s) t =
    ap codes (cons-append c s t) ∙ ap (λ r. code c ∷ r) (codes-append s t)

abbrev pub all_codes : List String → Codes
all_codes [] = []
all_codes (s ∷ ss) = codes s ++ all_codes ss

pub codes-joined : (ss : List String) → codes (joined ss) ≡ all_codes ss
unfolding joined
codes-joined [] = refl
codes-joined (s ∷ ss) = codes-append s (joined ss) ∙ ap (λ r. codes s ++ r) (codes-joined ss)

-- the chunks are the escape of the text that they join to
pub delta_chunks-escape : (ss : List String) → delta_chunks ss ≡ escape (all_codes ss)
unfolding delta_chunks escape
delta_chunks-escape [] = refl
delta_chunks-escape (s ∷ ss) =
    ap (λ r. escape (codes s) ++ r) (delta_chunks-escape ss)
    ∙ sym (escape-append (codes s) (all_codes ss))

-- the texts that the loop reads before it ends
abbrev pub deltas : List Happening → List String
deltas [] = []
deltas (client_gone ∷ hs) = []
deltas (replied (item s) ∷ hs) = s ∷ deltas hs
deltas (replied finished ∷ hs) = []
deltas (replied cancelled ∷ hs) = []
deltas (replied (raised exc) ∷ hs) = []

-- the counts are those of the pieces
pub record IsCounted (p : Progress) : Type 0 where
  pub pieces : p.chunks ≡ length p.parts
  pub characters : p.chars ≡ length (all_codes p.parts)

all_codes-append : (ss ts : List String) → all_codes (ss ++ ts) ≡ all_codes ss ++ all_codes ts
all_codes-append [] ts = refl
all_codes-append (s ∷ ss) ts = rw (all_codes-append ss ts) (simp append_assoc)

count_item-IsCounted : (p : Progress) (s : String) → IsCounted p → IsCounted (count_item p s)
count_item-IsCounted p s h = record {
  pieces = omega (arith, h.pieces, length-append p.parts (s ∷ []));
  characters = omega (
    arith,
    h.characters,
    ap length (all_codes-append p.parts (s ∷ [])),
    length-append (all_codes p.parts) (all_codes (s ∷ [])),
    length-append (codes s) [],
  );
}

pub read_all-IsCounted :
    (p : Progress) (hs : List Happening) → IsCounted p → IsCounted (read_all p hs).progress
unfolding read_all
read_all-IsCounted p [] h = h
read_all-IsCounted p (client_gone ∷ hs) h = h
read_all-IsCounted p (replied (item s) ∷ hs) h =
    read_all-IsCounted (count_item p s) hs (count_item-IsCounted p s h)
read_all-IsCounted p (replied finished ∷ hs) h = h
read_all-IsCounted p (replied cancelled ∷ hs) h = h
read_all-IsCounted p (replied (raised exc) ∷ hs) h = h

pub parts-read_all :
    (p : Progress) (hs : List Happening) → (read_all p hs).progress.parts ≡ p.parts ++ deltas hs
unfolding read_all
parts-read_all p [] = sym (append-nil p.parts)
parts-read_all p (client_gone ∷ hs) = sym (append-nil p.parts)
parts-read_all p (replied (item s) ∷ hs) =
    parts-read_all (count_item p s) hs ∙ append_assoc p.parts (s ∷ []) (deltas hs)
parts-read_all p (replied finished ∷ hs) = sym (append-nil p.parts)
parts-read_all p (replied cancelled ∷ hs) = sym (append-nil p.parts)
parts-read_all p (replied (raised exc) ∷ hs) = sym (append-nil p.parts)

no_progress-IsCounted : IsCounted no_progress
no_progress-IsCounted = record { pieces = refl; characters = refl }

-- the progress of a whole loop
pub read_from_start :
    (hs : List Happening)
    → IsCounted (read_all no_progress hs).progress
      × ((read_all no_progress hs).progress.parts ≡ deltas hs)
read_from_start hs =
    (read_all-IsCounted no_progress hs no_progress-IsCounted, parts-read_all no_progress hs)
