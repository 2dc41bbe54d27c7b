-- ===== src/Keyboard/Combinations/Words.antt =====
-- What a shortcut string of words stands for.
use apple_ps2smart_touch_pad.Common.{
  ℕ, zero, suc, ◌+◌, ◌<◌, Bool, true, not, ◌&&◌, List, [], ◌∷◌, ◌++◌, Option, some, ◌≡◌, refl, sym,
  ap, ◌∙◌, arith, ◌==◌, if◌then◌else◌, length, length-append, ltb,
}
use apple_ps2smart_touch_pad.Keyboard.State.{Text}
use apple_ps2smart_touch_pad.Keyboard.Maps.{deadkey}
use apple_ps2smart_touch_pad.Keyboard.Combinations.{
  code_of_name, adb_code_for_key_char, key_names, key_code, combination_codes, last_code, next_code,
  then_code,
}
use mathlib.Core.List.{append_assoc, append-nil}

abbrev pub no_space : Text → Bool
no_space [] = true
no_space (c ∷ cs) = not (c == 0x20) && no_space cs

-- One to four characters, none of them a space.
abbrev pub is_word : Text → Bool
is_word w = ltb 0 (length w) && ltb (length w) 5 && no_space w

abbrev pub are_words : List Text → Bool
are_words [] = true
are_words (w ∷ ws) = is_word w && are_words ws

-- Words with a space between them.
abbrev pub join : List Text → Text
join [] = []
join (w ∷ []) = w
join (w ∷ v ∷ ws) = w ++ (0x20 ∷ join (v ∷ ws))

-- The code of a word: that of its character, or of its name.
unfoldable pub word_code : Text → ℕ
word_code [] = deadkey
word_code (c ∷ []) = adb_code_for_key_char c
word_code (a ∷ b ∷ w) = code_of_name (a ∷ b ∷ w) key_names deadkey

-- The codes of the words that have one, at most `left`.
abbrev pub first_codes : ℕ → List Text → List ℕ
first_codes left [] = []
first_codes zero (w ∷ ws) = []
first_codes (suc left) (w ∷ ws) =
    if word_code w == deadkey then first_codes (suc left) ws else word_code w ∷ first_codes left ws

key_code-is_word : (w : Text) → is_word w ≡ true → key_code w ≡ some (word_code w)
unfolding key_code word_code
key_code-is_word [] h = absurd (ground arith)
key_code-is_word (c ∷ []) h = refl
key_code-is_word (a ∷ b ∷ w) h = ground arith

copied_lem :
    (w rest key : Text) (l : ℕ)
    → no_space w ≡ true
    → length key + length w < 5
    → combination_codes (w ++ rest) key l ≡ combination_codes rest (key ++ w) l
unfolding combination_codes
copied_lem [] rest key l h1 h2 =
    ap (λ (t : Text). combination_codes rest t l) (sym (append-nil key))
copied_lem (c ∷ w) rest key l h1 h2 =
    let copied : combination_codes (w ++ rest) (key ++ (c ∷ [])) l
        ≡ combination_codes rest ((key ++ (c ∷ [])) ++ w) l =
      copied_lem w rest (key ++ (c ∷ [])) l (ground arith)
        (omega (arith, length-append key (c ∷ []))) in
    ground
      (arith, copied, ap (λ (t : Text). combination_codes rest t l) (append_assoc key (c ∷ []) w))

word_lem :
    (w rest : Text) (l : ℕ)
    → is_word w ≡ true
    → combination_codes (w ++ rest) [] l ≡ combination_codes rest w l
word_lem w rest l h = copied_lem w rest [] l (ground arith) (ground arith)

last_lem :
    (w : Text) (l left : ℕ)
    → is_word w ≡ true
    → combination_codes [] w l ≡ some (first_codes (suc left) (w ∷ []))
unfolding combination_codes last_code
last_lem w l left h = ap last_code (key_code-is_word w h) ∙ ground arith

-- A word with others behind it.
next_lem :
    (w rest : Text) (l : ℕ)
    → is_word w ≡ true
    → combination_codes (w ++ (0x20 ∷ rest)) [] l
      ≡ next_code
          (some (word_code w))
          l
          (combination_codes rest [] l)
          (combination_codes rest [] (suc l))
unfolding combination_codes
next_lem w rest l h =
    word_lem w (0x20 ∷ rest) l h
    ∙ ap
        (λ (o : Option ℕ).
          next_code o l (combination_codes rest [] l) (combination_codes rest [] (suc l)))
        (key_code-is_word w h)

combination_codes-from :
    (w : Text) (ws : List Text) (l left : ℕ)
    → are_words (w ∷ ws) ≡ true
    → l + suc left ≡ 3
    → combination_codes (join (w ∷ ws)) [] l ≡ some (first_codes (suc left) (w ∷ ws))
unfolding next_code
combination_codes-from w [] l left h e =
    ap (λ (t : Text). combination_codes t [] l) (sym (append-nil w))
    ∙ word_lem w [] l (ground arith)
    ∙ last_lem w l left (ground arith)
combination_codes-from w (v ∷ ws) l zero h e =
    next_lem w (join (v ∷ ws)) l (ground arith)
    ∙ ground (arith, combination_codes-from v ws l zero (ground arith) e)
combination_codes-from w (v ∷ ws) l (suc left) h e =
    next_lem w (join (v ∷ ws)) l (ground arith)
    ∙ ground (
      arith,
      combination_codes-from v ws l (suc left) (ground arith) e,
      ap (then_code (word_code w))
          (combination_codes-from v ws (suc l) left (ground arith) (omega arith)),
    )

-- The codes that are sent for words with a space between them are those of the first three
-- words that have one, in order.
pub combination_codes-join :
    (w : Text) (ws : List Text)
    → are_words (w ∷ ws) ≡ true
    → combination_codes (join (w ∷ ws)) [] 0 ≡ some (first_codes 3 (w ∷ ws))
combination_codes-join w ws h = combination_codes-from w ws 0 2 h refl
