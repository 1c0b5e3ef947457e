-- ===== src/Lexer/Keywords.antt =====
-- src/lexer/ms_lexer.c: the table of keywords and the binary search in it.
use Prim.Native.Nat.{Ordering, compare}
use mslang_cc.Base.{
  none, some, List, [], ◌∷◌, ℕ, zero, suc, ◌+◌, ◌-◌, ◌/◌, ltb, if◌then◌else◌, length, get_elem?,
}
use mslang_cc.Base.Text.{codes}
use mslang_cc.Lexer.Tokens.{
  TokenType, identifier, kw_and, kw_as, kw_async, kw_await, kw_break, kw_case, kw_class,
  kw_continue, kw_default, kw_del, kw_div, kw_else, kw_except, kw_false, kw_finally, kw_for,
  kw_from, kw_func, kw_global, kw_if, kw_import, kw_in, kw_is, kw_lambda, kw_nil, kw_not, kw_or,
  kw_pass, kw_raise, kw_return, kw_select, kw_self, kw_super, kw_true, kw_try, kw_while, kw_with,
}

-- `msLexerKeywords`, in the order of the source
abbrev pub keywords : List (List ℕ × TokenType)
keywords =
    (codes "as", kw_as)
    ∷ (codes "if", kw_if)
    ∷ (codes "in", kw_in)
    ∷ (codes "is", kw_is)
    ∷ (codes "or", kw_or)
    ∷ (codes "and", kw_and)
    ∷ (codes "del", kw_del)
    ∷ (codes "div", kw_div)
    ∷ (codes "for", kw_for)
    ∷ (codes "nil", kw_nil)
    ∷ (codes "not", kw_not)
    ∷ (codes "try", kw_try)
    ∷ (codes "case", kw_case)
    ∷ (codes "else", kw_else)
    ∷ (codes "from", kw_from)
    ∷ (codes "func", kw_func)
    ∷ (codes "pass", kw_pass)
    ∷ (codes "self", kw_self)
    ∷ (codes "true", kw_true)
    ∷ (codes "with", kw_with)
    ∷ (codes "async", kw_async)
    ∷ (codes "await", kw_await)
    ∷ (codes "break", kw_break)
    ∷ (codes "class", kw_class)
    ∷ (codes "false", kw_false)
    ∷ (codes "raise", kw_raise)
    ∷ (codes "super", kw_super)
    ∷ (codes "while", kw_while)
    ∷ (codes "except", kw_except)
    ∷ (codes "global", kw_global)
    ∷ (codes "import", kw_import)
    ∷ (codes "lambda", kw_lambda)
    ∷ (codes "return", kw_return)
    ∷ (codes "select", kw_select)
    ∷ (codes "default", kw_default)
    ∷ (codes "finally", kw_finally)
    ∷ (codes "continue", kw_continue)
    ∷ []

-- the sign of `memcmp` on two byte strings of one length
unfoldable pub memcmp : List ℕ → List ℕ → Ordering
memcmp [] ys = Ordering.eq
memcmp (x ∷ xs) [] = Ordering.eq
memcmp (x ∷ xs) (y ∷ ys) =
    let rest = memcmp xs ys in
    elim (compare x y) [
      | Ordering.lt ↦ Ordering.lt
      | Ordering.eq ↦ rest
      | Ordering.gt ↦ Ordering.gt
    ]

-- `cmp`: the key is the length, then the bytes
unfoldable pub key_cmp : List ℕ → List ℕ → Ordering
key_cmp word name = elim (compare (length word) (length name)) [
  | Ordering.lt ↦ Ordering.lt
  | Ordering.eq ↦ memcmp word name
  | Ordering.gt ↦ Ordering.gt
]

-- `while (lo < hi)` of `msLexerKeywordType`; the interval shrinks in each round, so its length is fuel
-- enough.
unfoldable pub keyword_search : List (List ℕ × TokenType) → List ℕ → ℕ → ℕ → ℕ → TokenType
keyword_search table word zero lo hi = identifier
keyword_search table word (suc fuel) lo hi =
    let mid = lo + (hi - lo) / 2 in
    let below = keyword_search table word fuel lo mid in
    let above = keyword_search table word fuel (mid + 1) hi in
    if ltb lo hi
    then elim (get_elem? table mid) [
      | none ↦ identifier
      | some (name, type) ↦ elim (key_cmp word name) [
        | Ordering.lt ↦ below
        | Ordering.gt ↦ above
        | Ordering.eq ↦ type
      ]
    ]
    else identifier

-- `msLexerKeywordType`
unfoldable pub keyword_type : List ℕ → TokenType
keyword_type word = keyword_search keywords word 37 0 37
