-- ===== src/Chat/Mentions/Laws.antt =====
-- The loops over mentions in backend/src/ws/ws_handler.cpp and backend/src/db/database.cpp, and their
-- fuel.
use enclave_station.Base.{
  ℕ, zero, suc, ◌<◌, ◌≡◌, refl, ap, inl, inr, true, false, none, some, List, [], ◌∷◌, ◌++◌, ◌==◌,
  nat_keys, text_keys, Text, length, arith, Option-cases, length-append,
}
use enclave_station.Chat.Store.{ChannelMember}
use enclave_station.Chat.Mentions.{
  is_name_char, after_at, token_of, behind_token, resolve, parse_loop, parse_mentions, keep_token,
  tokens_loop, mention_tokens, length-after_at, length-behind_token,
}

abbrev pub resolve_each : List ChannelMember → List Text → List Text
resolve_each members [] = []
resolve_each members (t ∷ ts) = resolve members t ++ resolve_each members ts

resolve_each-keep_token :
    (members : List ChannelMember) (t : Text) (ts : List Text)
    → resolve_each members (keep_token t ++ ts) ≡ resolve members t ++ resolve_each members ts
unfolding resolve
resolve_each-keep_token members [] ts = refl
resolve_each-keep_token members (c ∷ t) ts = refl

parse_loop-tokens_loop :
    (fuel : ℕ) (members : List ChannelMember) (content : Text)
    → parse_loop fuel members content ≡ resolve_each members (tokens_loop fuel content)
unfolding parse_loop tokens_loop
parse_loop-tokens_loop zero members content = refl
parse_loop-tokens_loop (suc fuel) members content = elim (Option-cases (after_at content)) [
  | inl none_left ↦ rw (none_left, parse_loop, tokens_loop) refl
  | inr (rest, found) ↦
      rw
        (
          found,
          parse_loop,
          tokens_loop,
          resolve_each-keep_token members (token_of rest) (tokens_loop fuel (behind_token rest)),
          parse_loop-tokens_loop fuel members (behind_token rest),
        )
        refl
]

-- The two loops of the program find the same tokens: the mentions that `parse_mentions` reports are
-- those that its rule for one token makes of the tokens that `store_mentions` collects, in order.
pub parse_mentions-mention_tokens :
    (content : Text) (members : List ChannelMember)
    → parse_mentions content members ≡ resolve_each members (mention_tokens content)
unfolding parse_mentions mention_tokens
parse_mentions-mention_tokens content members =
    parse_loop-tokens_loop (suc (length content)) members content

-- Any fuel above the length of the content gives the same tokens.
tokens_loop_fuel :
    (f g : ℕ) (s : Text) → length s < f → length s < g → tokens_loop f s ≡ tokens_loop g s
unfolding tokens_loop
tokens_loop_fuel zero g s p q = elim p [ ]
tokens_loop_fuel (suc f) zero s p q = elim q [ ]
tokens_loop_fuel (suc f) (suc g) s p q = elim (Option-cases (after_at s)) [
  | inl none_left ↦ rw (none_left, tokens_loop) refl
  | inr (rest, found) ↦
      rw (found, tokens_loop)
        (ap (◌++◌ (keep_token (token_of rest))) (
          tokens_loop_fuel f g (behind_token rest)
            (omega (arith, length-after_at s rest found, length-behind_token rest))
            (omega (arith, length-after_at s rest found, length-behind_token rest))))
]

abbrev pub HasNoAt : Text → Type 0
HasNoAt [] = Unit {0}
HasNoAt (c ∷ s) = ((c == b'@') ≡ false) × HasNoAt s

abbrev pub IsName : Text → Type 0
IsName [] = Unit {0}
IsName (c ∷ s) = (is_name_char c ≡ true) × IsName s

-- The text is at its end, or goes on with a character that no name has.
abbrev pub EndsName : Text → Type 0
EndsName [] = Unit {0}
EndsName (c ∷ s) = is_name_char c ≡ false

after_at-append : (pre s : Text) → HasNoAt pre → after_at (pre ++ b'@' ∷ s) ≡ some s
unfolding after_at
after_at-append [] s h = refl
after_at-append (c ∷ pre) s h = rw h.0 (after_at-append pre s h.1)

after_at-none : (s : Text) → HasNoAt s → after_at s ≡ none
unfolding after_at
after_at-none [] h = refl
after_at-none (c ∷ s) h = rw h.0 (after_at-none s h.1)

token_of-append : (name post : Text) → IsName name → EndsName post → token_of (name ++ post) ≡ name
unfolding token_of
token_of-append [] [] n e = refl
token_of-append [] (c ∷ post) n e = rw e refl
token_of-append (c ∷ name) post n e = rw n.0 (ap (◌∷◌ c) (token_of-append name post n.1 e))

behind_token-append :
    (name post : Text) → IsName name → EndsName post → behind_token (name ++ post) ≡ post
unfolding behind_token
behind_token-append [] [] n e = refl
behind_token-append [] (c ∷ post) n e = rw e refl
behind_token-append (c ∷ name) post n e = rw n.0 (behind_token-append name post n.1 e)

-- A text with no `@` has no tokens. In any other, the first token is the longest run of letters,
-- digits, `_` and `-` behind the first `@`; an empty run gives none, and the rest of the tokens are
-- those of what follows the run.
pub mention_tokens_lem :
    (pre name post : Text)
    → HasNoAt pre
    → IsName name
    → EndsName post
    → (mention_tokens pre ≡ [])
      × (mention_tokens (pre ++ b'@' ∷ (name ++ post)) ≡ keep_token name ++ mention_tokens post)
unfolding mention_tokens tokens_loop
mention_tokens_lem pre name post h n e = (
  rw (after_at-none pre h, tokens_loop) refl,
  rw
      (
        after_at-append pre (name ++ post) h,
        tokens_loop,
        token_of-append name post n e,
        behind_token-append name post n e,
      )
      (ap (◌++◌ (keep_token name)) (
        tokens_loop_fuel (length (pre ++ b'@' ∷ (name ++ post))) (suc (length post)) post
          (omega (arith, length-append pre (b'@' ∷ (name ++ post)), length-append name post))
          (omega arith))),
)
