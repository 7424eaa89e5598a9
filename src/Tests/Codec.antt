-- ===== src/Tests/Codec.antt =====
-- A concrete encoding of cursors that is read back: numbers in unary, texts with a mark before each
-- character.
use Prim.Native.String.{String}
use Prim.Native.Char.{Char, code}
use reading_lite_next.Prelude.{
  ℕ, zero, suc, ◌≡◌, ◌≢◌, refl, ap, true, Option, some, none, arith, ◌==◌, if◌then◌else◌,
}
use reading_lite_next.Store.Search.{Cursor}

put_number : ℕ → String → String
put_number zero rest = String.◌∷◌ "0" rest
put_number (suc n) rest = String.◌∷◌ "1" (put_number n rest)

abbrev one_more : Option (ℕ × String) → Option (ℕ × String)
one_more none = none
one_more (some (n, rest)) = some (suc n, rest)

take_number : String → Option (ℕ × String)
take_number String.[] = none
take_number (String.◌∷◌ c s) =
    let later = take_number s in if code c == 48 then some (0, s) else one_more later

take_number-put_number : (n : ℕ) (rest : String) → take_number (put_number n rest) ≡ some (n, rest)
unfolding take_number put_number
take_number-put_number zero rest = refl
take_number-put_number (suc n) rest = ap one_more (take_number-put_number n rest)

abbrev after_mark : Option (String × String) → Char → Option (String × String)
after_mark none c = none
after_mark (some (s, rest)) c = some (String.◌∷◌ c s, rest)

take_text : ℕ → String → Option (String × String)
take_text zero s = some ("", s)
take_text (suc n) String.[] = none
take_text (suc n) (String.◌∷◌ c s) = after_mark (take_text n s) c

glue : String → String → String
glue String.[] rest = rest
glue (String.◌∷◌ c s) rest = String.◌∷◌ c (glue s rest)

size : String → ℕ
size String.[] = 0
size (String.◌∷◌ c s) = suc (size s)

take_text-size : (s rest : String) → take_text (size s) (glue s rest) ≡ some (s, rest)
unfolding take_text size glue
take_text-size String.[] rest = refl
take_text-size (String.◌∷◌ c s) rest = ap (λ x. after_mark x c) (take_text-size s rest)

-- a text after its length, two numbers, and two texts
pub marshal : Cursor → String
marshal c = put_number c.created_at (
    put_number c.rank
      (put_number (size c.id) (glue c.id (put_number (size c.title) (glue c.title "")))))

read_title : ℕ → ℕ → String → Option (String × String) → Option Cursor
read_title created rank id none = none
read_title created rank id (some (title, rest)) =
    some (record { created_at = created; id = id; title = title; rank = rank; valid = true })

read_title_size : ℕ → ℕ → String → Option (ℕ × String) → Option Cursor
unfolding read_title
read_title_size created rank id none = none
read_title_size created rank id (some (n, s)) = read_title created rank id (take_text n s)

read_id : ℕ → ℕ → Option (String × String) → Option Cursor
unfolding read_title_size
read_id created rank none = none
read_id created rank (some (id, s)) = read_title_size created rank id (take_number s)

read_id_size : ℕ → ℕ → Option (ℕ × String) → Option Cursor
unfolding read_id
read_id_size created rank none = none
read_id_size created rank (some (n, s)) = read_id created rank (take_text n s)

read_rank : ℕ → Option (ℕ × String) → Option Cursor
unfolding read_id_size
read_rank created none = none
read_rank created (some (rank, s)) = read_id_size created rank (take_number s)

read_created : Option (ℕ × String) → Option Cursor
unfolding read_rank
read_created none = none
read_created (some (created, s)) = read_rank created (take_number s)

pub unmarshal : String → Option Cursor
unfolding read_created
unmarshal s = read_created (take_number s)

pub unmarshal-marshal : (c : Cursor) → c.valid ≡ true → unmarshal (marshal c) ≡ some c
unfolding unmarshal marshal read_created read_rank read_id_size read_id read_title_size read_title
unmarshal-marshal c valid =
    let title_text = put_number (size c.title) (glue c.title "") in
    let id_text = put_number (size c.id) (glue c.id title_text) in
    let rank_text = put_number c.rank id_text in
    rw
      (
        take_number-put_number c.created_at rank_text,
        take_number-put_number c.rank id_text,
        take_number-put_number (size c.id) (glue c.id title_text),
        take_text-size c.id title_text,
        take_number-put_number (size c.title) (glue c.title ""),
        take_text-size c.title "",
      )
      (rw (← valid) refl)

pub encode : String → String
encode s = String.◌∷◌ "c" s

pub decode : String → Option String
decode String.[] = none
decode (String.◌∷◌ c s) = some s

pub decode-encode : (s : String) → decode (encode s) ≡ some s
unfolding decode encode
decode-encode s = refl

pub encode-nonempty : (s : String) → encode s ≢ ""
unfolding encode decode
encode-nonempty s h = let read : some s ≡ none = ap decode h in ground (arith, read)
