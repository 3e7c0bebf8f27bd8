-- ===== src/Embedding/Chunker/Sanitize.antt =====
-- `sanitizeEmbeddingText`, on what is left of the text after `cursor`. A round of the loop takes at
-- least the five code units of `data:`, so that a round for every code unit is enough.
pub mod Urls
use mathlib.Core.Option.{map}
use docsmint.Prelude.{
  ℕ, zero, suc, ◌+◌, Bool, true, false, not, ◌&&◌, ◌||◌, Option, none, some, List, [], ◌∷◌, ◌++◌,
  ◌==◌, if◌then◌else◌, leb, length, take, drop, any, starts_with,
}

-- "data:"
abbrev pub data_prefix : List ℕ
data_prefix = 100 ∷ 97 ∷ 116 ∷ 97 ∷ 58 ∷ []

-- `INLINE_DATA_MARKER`, "[inline binary asset omitted]"
abbrev pub inline_data_marker : List ℕ
inline_data_marker =
    91 ∷ 105 ∷ 110 ∷ 108 ∷ 105 ∷ 110 ∷ 101 ∷ 32 ∷ 98 ∷ 105 ∷ 110 ∷ 97 ∷ 114 ∷ 121 ∷ 32 ∷ 97 ∷ 115
    ∷ 115 ∷ 101 ∷ 116 ∷ 32 ∷ 111 ∷ 109 ∷ 105 ∷ 116 ∷ 116 ∷ 101 ∷ 100 ∷ 93 ∷ []

-- `text.indexOf("data:")`
unfoldable pub index_of_data : List ℕ → Option ℕ
index_of_data [] = none
index_of_data (c ∷ cs) =
    let later = map suc (index_of_data cs) in
    if starts_with data_prefix (c ∷ cs) then some 0 else later

-- The first comma of the header, in the code units before `headerLimit`.
unfoldable pub comma_in : ℕ → List ℕ → Option ℕ
comma_in zero text = none
comma_in (suc n) [] = none
comma_in (suc n) (c ∷ cs) = let later = map suc (comma_in n cs) in if c == 44 then some 0 else later

-- Tab, newline, carriage return and space.
abbrev pub is_break : ℕ → Bool
is_break c = c == 9 || c == 10 || c == 13 || c == 32

-- What ends the payload: white space, quotes, `)` and `>`.
abbrev pub is_terminator : ℕ → Bool
is_terminator c = is_break c || c == 34 || c == 39 || c == 41 || c == 62

-- `validHeader`, where `rest` is what follows `data:` and `comma` the index of its comma.
unfoldable pub valid_header : Option ℕ → List ℕ → Bool
valid_header none rest = false
valid_header (some comma) rest = leb (5 + comma) 512 && not (any is_break (take comma rest))

-- The text from `end` on.
unfoldable pub after_payload : List ℕ → List ℕ
after_payload [] = []
after_payload (c ∷ cs) = if is_terminator c then c ∷ cs else after_payload cs

abbrev pub after_url : Option ℕ → List ℕ → List ℕ
after_url none rest = rest
after_url (some comma) rest = after_payload (drop (suc comma) rest)

abbrev pub after_match : Option ℕ → List ℕ → List ℕ
after_match comma rest = if valid_header comma rest then after_url comma rest else rest

abbrev pub in_its_place : Option ℕ → List ℕ → List ℕ
in_its_place comma rest = if valid_header comma rest then inline_data_marker else data_prefix

module _ (next : List ℕ → Option (List ℕ)) where
  -- A round of the loop, where `start` is what `indexOf` returned.
  abbrev pub sanitize_at : List ℕ → Option ℕ → Option (List ℕ)
  sanitize_at text none = some text
  sanitize_at text (some start) =
      let rest = drop (start + 5) text in
      let comma = comma_in 513 rest in
      map (λ output. take start text ++ (in_its_place comma rest ++ output))
        (next (after_match comma rest))

unfoldable pub sanitize : ℕ → List ℕ → Option (List ℕ)
sanitize fuel [] = some []
sanitize zero (c ∷ cs) = none
sanitize (suc fuel) (c ∷ cs) = sanitize_at (sanitize fuel) (c ∷ cs) (index_of_data (c ∷ cs))

unfoldable pub sanitize_embedding_text : List ℕ → Option (List ℕ)
sanitize_embedding_text text = sanitize (length text) text
