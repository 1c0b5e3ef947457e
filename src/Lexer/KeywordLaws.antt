-- ===== src/Lexer/KeywordLaws.antt =====
-- The binary search in the table of keywords finds exactly the keywords.
use mslang_cc.Base.{
  some, List, [], ◌∷◌, ℕ, zero, suc, ◌+◌, ◌-◌, ◌/◌, ◌≡◌, refl, sym, ap, ◌∙◌, ◌≢◌, ◌⊎◌, inl, inr,
  arith, ltb, length, get_elem?,
}
use Prim.Native.Nat.{Ordering}
use mathlib.Core.Path.{subst}
use mslang_cc.Base.Loop.{if_rule, option_rule}
use mslang_cc.Lexer.Tokens.{TokenType, eof, identifier}
use mslang_cc.Lexer.Keywords.{keywords, memcmp, key_cmp, keyword_search, keyword_type}

memcmp-eq : (xs ys : List ℕ) → length xs ≡ length ys → memcmp xs ys ≡ Ordering.eq → xs ≡ ys
unfolding memcmp
memcmp-eq [] [] h e = refl
memcmp-eq [] (y ∷ ys) h e = absurd (omega arith)
memcmp-eq (x ∷ xs) [] h e = absurd (omega arith)
memcmp-eq (x ∷ xs) (y ∷ ys) h e = ground (arith, memcmp-eq xs ys)

key_cmp-eq : (word name : List ℕ) → key_cmp word name ≡ Ordering.eq → name ≡ word
unfolding key_cmp
key_cmp-eq word name e = ground (arith, memcmp-eq word name)

-- The entry of a word in a table.
abbrev pub IsEntry : List (List ℕ × TokenType) → List ℕ → TokenType → Type 0
IsEntry table word type = (i : ℕ) × (get_elem? table i ≡ some (word, type))

abbrev Hit : List (List ℕ × TokenType) → List ℕ → TokenType → Type 0
Hit table word type = (type ≡ identifier) ⊎ IsEntry table word type

-- A split on the result of a comparison.
ordering_rule :
    (P : TokenType → Type 0) (o : Ordering) {x y z : TokenType}
    → P x
    → (o ≡ Ordering.eq → P y)
    → P z
    → P (elim o [ Ordering.lt ↦ x | Ordering.eq ↦ y | Ordering.gt ↦ z ])
ordering_rule P Ordering.lt a b c = a
ordering_rule P Ordering.eq a b c = b refl
ordering_rule P Ordering.gt a b c = c

keyword_search-Hit :
    (table : List (List ℕ × TokenType)) (word : List ℕ) (fuel lo hi : ℕ)
    → Hit table word (keyword_search table word fuel lo hi)
unfolding keyword_search
keyword_search-Hit table word zero lo hi = inl refl
keyword_search-Hit table word (suc fuel) lo hi =
    let mid = lo + (hi - lo) / 2 in
    if_rule (Hit table word) (ltb lo hi)
      (λ _.
        option_rule (Hit table word) (get_elem? table mid) (λ _. inl refl)
          (λ e found.
            ordering_rule (Hit table word) (key_cmp word e.0)
              (keyword_search-Hit table word fuel lo mid)
              (λ same.
                let name : e.0 ≡ word = key_cmp-eq word e.0 same in
                inr (mid, found ∙ ap (λ w. some (w, e.1)) name))
              (keyword_search-Hit table word fuel (mid + 1) hi)))
      (λ _. inl refl)

abbrev EachFound : List (List ℕ × TokenType) → Type 0
EachFound [] = Unit {0}
EachFound (e ∷ es) = (keyword_type e.0 ≡ e.1) × (e.1 ≢ identifier) × (e.1 ≢ eof) × EachFound es

keywords-EachFound : EachFound keywords
unfolding keyword_type key_cmp memcmp keyword_search
keywords-EachFound = ground arith

EachFound-at :
    (table : List (List ℕ × TokenType)) (i : ℕ) {word : List ℕ} {type : TokenType}
    → EachFound table
    → get_elem? table i ≡ some (word, type)
    → (keyword_type word ≡ type) × (type ≢ identifier) × (type ≢ eof)
EachFound-at [] i h e = cc
EachFound-at (x ∷ table) zero {word} {type} (found, word_type, no_eof, rest) e =
    let same : x ≡ (word, type) = cc in
    subst (λ (y : List ℕ × TokenType). (keyword_type y.0 ≡ y.1) × (y.1 ≢ identifier) × (y.1 ≢ eof))
      same (found, word_type, no_eof)
EachFound-at (x ∷ table) (suc i) (found, word_type, no_eof, rest) e = EachFound-at table i rest e

-- The lookup that the search stands for: the type of the entry with these bytes, or `identifier` if no
-- entry has them.
abbrev pub Finds : List ℕ → TokenType → Type 0
Finds word type =
    IsEntry keywords word type
    ⊎ ((type ≡ identifier) × ((t : TokenType) → IsEntry keywords word t → ⊥))

-- For every word the binary search gives the type of the entry of the table with the same bytes, and
-- `identifier` exactly if the table has no such entry.
pub keyword_type-Finds : (word : List ℕ) → Finds word (keyword_type word)
unfolding keyword_type
keyword_type-Finds word = elim (keyword_search-Hit keywords word 37 0 37) [
  | inr entry ↦ inl entry
  | inl none_found ↦ inr (
    none_found,
    λ t (i, found).
        let (type, word_type, no_eof) = EachFound-at keywords i keywords-EachFound found in
        word_type (sym type ∙ none_found),
  )
]

pub keyword_type≢eof : (word : List ℕ) → keyword_type word ≢ eof
keyword_type≢eof word e = elim (keyword_type-Finds word) [
  | inl (i, found) ↦ (EachFound-at keywords i keywords-EachFound found).2 e
  | inr (other, absent) ↦ cc
]
