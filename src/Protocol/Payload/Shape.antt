-- ===== src/Protocol/Payload/Shape.antt =====
-- A payload made of items can be sent: it has no white space at its ends and no newline.
use Prim.Native.Nat.{◌<◌}
use embedded_test_runner.Base.{
  ℕ, ◌≡◌, refl, ap, sym, ◌∙◌, true, false, [], ◌∷◌, ◌++◌, List, append_assoc, append-nil, subst,
  arith, Text, is_word, is_space, Every, All, IsTrimmed, lstrip, lstrip-cons, rstrip, rstrip-concat,
}
use embedded_test_runner.Protocol.Utf8.{IsText}
use embedded_test_runner.Protocol.Line.{non_space, has_newline}
use embedded_test_runner.Protocol.Line.Suffix.{IsPayload, body}
use embedded_test_runner.Protocol.Payload.RoundTrip.{
  Item, quoted_item, plain_item, flag_item, render_item, render, IsKey, IsPlain, IsItem,
}

word_not_space : (c : ℕ) → is_word c ≡ true → is_space c ≡ false
unfolding is_word is_space
word_not_space c h = ground arith

-- the last character is no white space
record EndsWell (s : Text) : Type 0 where
  front : Text
  last : ℕ
  splits : s ≡ front ++ last ∷ []
  no_space : is_space last ≡ false

EndsWell-append : (s t : Text) → EndsWell t → EndsWell (s ++ t)
EndsWell-append s t h = record {
  front = s ++ h.front;
  last = h.last;
  splits = ap (λ r. s ++ r) h.splits ∙ sym (append_assoc s h.front (h.last ∷ []));
  no_space = h.no_space;
}

EndsWell-one : (c : ℕ) → is_space c ≡ false → EndsWell (c ∷ [])
EndsWell-one c h = record { front = []; last = c; splits = refl; no_space = h }

EndsWell-Every : (c : ℕ) (s : Text) → is_space c ≡ false → Every non_space s → EndsWell (c ∷ s)
EndsWell-Every c [] hc h = EndsWell-one c hc
EndsWell-Every c (d ∷ s) hc h =
    EndsWell-append (c ∷ []) (d ∷ s) (EndsWell-Every d s (ground arith) h.1)

rstrip-EndsWell : (s : Text) → EndsWell s → rstrip s ≡ s
rstrip-EndsWell s h = ap rstrip h.splits ∙ rstrip-concat h.front h.last h.no_space ∙ sym h.splits

Every-non_space : (k : Text) → Every is_word k → Every non_space k
Every-non_space [] h = tt
Every-non_space (c ∷ k) h = (rw (word_not_space c h.0), Every-non_space k h.1)

EndsWell-key : (k : Text) → IsKey k → EndsWell k
EndsWell-key [] h = absurd (h.some_character refl)
EndsWell-key (c ∷ k) h = EndsWell-Every c k (word_not_space c h.word.0) (Every-non_space k h.word.1)

EndsWell-plain : (v : Text) → IsPlain v → EndsWell v
EndsWell-plain [] h = absurd h
EndsWell-plain (c ∷ v) h = EndsWell-Every c v (ground arith) h.0.1

EndsWell-nil : (s : Text) → EndsWell s → EndsWell (s ++ [])
EndsWell-nil s h = subst EndsWell (sym (append-nil s)) h

EndsWell-last : (i : Item) → IsItem i → EndsWell (render_item i [])
EndsWell-last (quoted_item k v) h = EndsWell-append k _ (
    EndsWell-append (b'=' ∷ b'"' ∷ []) _
      (EndsWell-append v _ (EndsWell-one b'"' (unfold is_space in refl))))
EndsWell-last (plain_item k v) h =
    EndsWell-append k _ (EndsWell-append (b'=' ∷ []) _ (EndsWell-nil v (EndsWell-plain v h.1)))
EndsWell-last (flag_item k) h = EndsWell-nil k (EndsWell-key k h.0)

EndsWell-item : (i : Item) (rest : Text) → EndsWell rest → EndsWell (render_item i rest)
EndsWell-item (quoted_item k v) rest h = EndsWell-append k _ (
    EndsWell-append (b'=' ∷ b'"' ∷ []) _ (EndsWell-append v _ (EndsWell-append (b'"' ∷ []) rest h)))
EndsWell-item (plain_item k v) rest h =
    EndsWell-append k _ (EndsWell-append (b'=' ∷ []) _ (EndsWell-append v rest h))
EndsWell-item (flag_item k) rest h = EndsWell-append k rest h

EndsWell-render : (i : Item) (is : List Item) → All IsItem (i ∷ is) → EndsWell (render (i ∷ is))
EndsWell-render i [] h = EndsWell-last i h.0
EndsWell-render i (j ∷ is) h =
    EndsWell-item i _ (EndsWell-append (b' ' ∷ []) _ (EndsWell-render j is h.1))

lstrip-key : (k s : Text) → IsKey k → lstrip (k ++ s) ≡ k ++ s
lstrip-key [] s h = absurd (h.some_character refl)
lstrip-key (c ∷ k) s h = lstrip-cons c (k ++ s) (word_not_space c h.word.0)

lstrip-item : (i : Item) (rest : Text) → IsItem i → lstrip (render_item i rest) ≡ render_item i rest
lstrip-item (quoted_item k v) rest h = lstrip-key k _ h.0
lstrip-item (plain_item k v) rest h = lstrip-key k _ h.0
lstrip-item (flag_item k) rest h = lstrip-key k _ h.0

IsTrimmed-render : (is : List Item) → All IsItem is → IsTrimmed (render is)
IsTrimmed-render [] h = record { left = unfold lstrip in refl; right = unfold rstrip in refl }
IsTrimmed-render (i ∷ []) h = record {
  left = lstrip-item i [] h.0;
  right = rstrip-EndsWell _ (EndsWell-render i [] h);
}
IsTrimmed-render (i ∷ j ∷ is) h = record {
  left = lstrip-item i _ h.0;
  right = rstrip-EndsWell _ (EndsWell-render i (j ∷ is) h);
}

pub has_newline-append :
    (s t : Text) → has_newline s ≡ false → has_newline t ≡ false → has_newline (s ++ t) ≡ false
unfolding has_newline
has_newline-append [] t hs ht = ht
has_newline-append (c ∷ s) t hs ht = ground (arith, has_newline-append s t)

one_line-Every : (s : Text) → Every non_space s → has_newline s ≡ false
unfolding has_newline is_space
one_line-Every [] h = refl
one_line-Every (c ∷ s) h = ground (arith, one_line-Every s h.1)

one_line-key : (k : Text) → IsKey k → has_newline k ≡ false
one_line-key k h = one_line-Every k (Every-non_space k h.word)

-- only a quoted value could hold a newline
abbrev pub IsOneLine : Item → Type 0
IsOneLine (quoted_item k v) = has_newline v ≡ false
IsOneLine (plain_item k v) = Unit
IsOneLine (flag_item k) = Unit

one_line-item :
    (i : Item) (rest : Text)
    → IsItem i
    → IsOneLine i
    → has_newline rest ≡ false
    → has_newline (render_item i rest) ≡ false
one_line-item (quoted_item k v) rest h o e =
    has_newline-append k _ (one_line-key k h.0)
      (unfold has_newline in has_newline-append v (b'"' ∷ rest) o e)
one_line-item (plain_item k []) rest h o e = absurd h.1
one_line-item (plain_item k (c ∷ v)) rest h o e = has_newline-append k _ (one_line-key k h.0) (
    has_newline-append (b'=' ∷ []) _ (unfold has_newline in refl)
      (has_newline-append (c ∷ v) rest (one_line-Every (c ∷ v) h.1.0) e))
one_line-item (flag_item k) rest h o e = has_newline-append k rest (one_line-key k h.0) e

one_line-render :
    (is : List Item) → All IsItem is → All IsOneLine is → has_newline (render is) ≡ false
one_line-render [] h o = unfold has_newline in refl
one_line-render (i ∷ []) h o = one_line-item i [] h.0 o.0 (unfold has_newline in refl)
one_line-render (i ∷ j ∷ is) h o = one_line-item i _ h.0 o.0 (
    has_newline-append (b' ' ∷ []) _ (unfold has_newline in refl)
      (one_line-render (j ∷ is) h.1 o.1))

pub IsPayload-render : (is : List Item) → All IsItem is → All IsOneLine is → IsPayload (render is)
IsPayload-render is h o = record {
  trimmed = IsTrimmed-render is h;
  one_line = one_line-render is h o;
}

-- code points
pub IsText-append : (s t : Text) → IsText s → IsText t → IsText (s ++ t)
IsText-append [] t hs ht = ht
IsText-append (c ∷ s) t hs ht = (hs.0, IsText-append s t hs.1 ht)

IsText-word : (k : Text) → Every is_word k → IsText k
IsText-word [] h = tt
IsText-word (c ∷ k) h = (word-lt c h.0, IsText-word k h.1)
  where
    word-lt : (c : ℕ) → is_word c ≡ true → c < 0x110000
    word-lt c h = unfold is_word in ground arith

abbrev pub IsTextItem : Item → Type 0
IsTextItem (quoted_item k v) = IsText v
IsTextItem (plain_item k v) = IsText v
IsTextItem (flag_item k) = Unit

IsText-item :
    (i : Item) (rest : Text) → IsItem i → IsTextItem i → IsText rest → IsText (render_item i rest)
IsText-item (quoted_item k v) rest h u r =
    IsText-append k _ (IsText-word k h.0.word)
      (omega arith, (omega arith, IsText-append v _ u (omega arith, r)))
IsText-item (plain_item k v) rest h u r =
    IsText-append k _ (IsText-word k h.0.word) (omega arith, IsText-append v rest u r)
IsText-item (flag_item k) rest h u r = IsText-append k rest (IsText-word k h.0.word) r

pub IsText-render : (is : List Item) → All IsItem is → All IsTextItem is → IsText (render is)
IsText-render [] h u = tt
IsText-render (i ∷ []) h u = IsText-item i [] h.0 u.0 tt
IsText-render (i ∷ j ∷ is) h u =
    IsText-item i _ h.0 u.0 (omega arith, IsText-render (j ∷ is) h.1 u.1)

pub IsText-body : (tag payload : Text) → IsText tag → IsText payload → IsText (body tag payload)
IsText-body tag [] ht hp = ht
IsText-body tag (c ∷ payload) ht hp = IsText-append tag _ ht (omega arith, hp)
