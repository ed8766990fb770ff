-- ===== src/Sites/Chunks.antt =====
-- Where a response is cut into chunks does not matter to Sites/LogStream.antt.
use ventopanel.Base.{
  lengthen, ℕ, ◌==◌, ◌≡◌, refl, subst, ap, ap₂, split_on, sym, ◌∙◌, ◌⊎◌, inl, inr, true, false,
  ◌&&◌, Bool-cases, List, [], ◌∷◌, ◌++◌, append_assoc, append-nil, Text,
}
use ventopanel.Sites.LogStream.{
  split_blank, all_but_last, last_part, Shown, read_lines, read_parts, Reader, initial,
  receive_chunk, receive_chunks,
}

-- A text is its only part, or has several.
Shape : Text → Type 0
Shape s =
    (split_blank s ≡ s ∷ [])
    ⊎ ((p : Text) × (q : Text) × (ps : List Text) × (split_blank s ≡ p ∷ q ∷ ps))

split_blank-newlines :
    (c d : ℕ) (s : Text)
    → ((c == 10) && (d == 10)) ≡ true
    → split_blank (c ∷ d ∷ s) ≡ [] ∷ split_blank s
unfolding split_blank
split_blank-newlines c d s h = rw (h, split_blank) refl

split_blank-character :
    (c d : ℕ) (s : Text)
    → ((c == 10) && (d == 10)) ≡ false
    → split_blank (c ∷ d ∷ s) ≡ lengthen c (split_blank (d ∷ s))
unfolding split_blank
split_blank-character c d s h = rw (h, split_blank) refl

Shape-newlines :
    (c d : ℕ) (s : Text) → ((c == 10) && (d == 10)) ≡ true → Shape s → Shape (c ∷ d ∷ s)
unfolding Shape
Shape-newlines c d s h (inl e) = inr ([], s, [], split_blank-newlines c d s h ∙ ap (◌∷◌ []) e)
Shape-newlines c d s h (inr (p, q, ps, e)) =
    inr ([], p, q ∷ ps, split_blank-newlines c d s h ∙ ap (◌∷◌ []) e)

Shape-character :
    (c d : ℕ) (s : Text) → ((c == 10) && (d == 10)) ≡ false → Shape (d ∷ s) → Shape (c ∷ d ∷ s)
unfolding Shape
Shape-character c d s h (inl e) = inl (split_blank-character c d s h ∙ ap (lengthen c) e)
Shape-character c d s h (inr (p, q, ps, e)) =
    inr (c ∷ p, q, ps, split_blank-character c d s h ∙ ap (lengthen c) e)

split_blank-Shape : (s : Text) → Shape s
unfolding Shape split_blank
split_blank-Shape [] = inl refl
split_blank-Shape (c ∷ []) = inl refl
split_blank-Shape (c ∷ d ∷ s) = elim (Bool-cases ((c == 10) && (d == 10))) [
  | inl h ↦ Shape-newlines c d s h (split_blank-Shape s)
  | inr h ↦ Shape-character c d s h (split_blank-Shape (d ∷ s))
]

-- The parts of a text that grows: those that were complete, and the parts of the rest with what came.
Grows : Text → Text → List Text → Type 0
Grows s t parts = split_blank (s ++ t) ≡ all_but_last parts ++ split_blank (last_part parts ++ t)

Grows-newlines :
    (c d : ℕ) (s t : Text)
    → ((c == 10) && (d == 10)) ≡ true
    → Shape s
    → Grows s t (split_blank s)
    → Grows (c ∷ d ∷ s) t ([] ∷ split_blank s)
unfolding Grows Shape
Grows-newlines c d s t h (inl e) g = rw e (split_blank-newlines c d (s ++ t) h)
Grows-newlines c d s t h (inr (p, q, ps, e)) g =
    rw e (split_blank-newlines c d (s ++ t) h ∙ ap (◌∷◌ []) (subst (Grows s t) e g))

Grows-character :
    (c d : ℕ) (s t : Text)
    → ((c == 10) && (d == 10)) ≡ false
    → Shape (d ∷ s)
    → Grows (d ∷ s) t (split_blank (d ∷ s))
    → Grows (c ∷ d ∷ s) t (lengthen c (split_blank (d ∷ s)))
unfolding Grows Shape
Grows-character c d s t h (inl e) g = rw e refl
Grows-character c d s t h (inr (p, q, ps, e)) g =
    rw e (split_blank-character c d (s ++ t) h ∙ ap (lengthen c) (subst (Grows (d ∷ s) t) e g))

split_blank-Grows : (s t : Text) → Grows s t (split_blank s)
unfolding Grows split_blank
split_blank-Grows [] t = refl
split_blank-Grows (c ∷ []) t = refl
split_blank-Grows (c ∷ d ∷ s) t = elim (Bool-cases ((c == 10) && (d == 10))) [
  | inl h ↦
      subst (Grows (c ∷ d ∷ s) t) (sym (split_blank-newlines c d s h))
        (Grows-newlines c d s t h (split_blank-Shape s) (split_blank-Grows s t))
  | inr h ↦
      subst (Grows (c ∷ d ∷ s) t) (sym (split_blank-character c d s h))
        (Grows-character c d s t h (split_blank-Shape (d ∷ s)) (split_blank-Grows (d ∷ s) t))
]

read_parts-append :
    (ps qs : List Text) (shown : Shown)
    → read_parts shown (ps ++ qs) ≡ read_parts (read_parts shown ps) qs
unfolding read_parts
read_parts-append [] qs shown = refl
read_parts-append (p ∷ ps) qs shown = read_parts-append ps qs (read_lines shown (split_on 10 p))

all_but_last-append :
    (ps qs : List Text) (q : Text)
    → (all_but_last (ps ++ q ∷ qs) ≡ ps ++ all_but_last (q ∷ qs))
      × (last_part (ps ++ q ∷ qs) ≡ last_part (q ∷ qs))
all_but_last-append [] qs q = (refl, refl)
all_but_last-append (p ∷ []) qs q = (refl, refl)
all_but_last-append (p ∷ r ∷ ps) qs q =
    let (front, last) = all_but_last-append (r ∷ ps) qs q in (ap (◌∷◌ p) front, last)

last_part-append :
    (ps : List Text) (s : Text)
    → (all_but_last (ps ++ split_blank s) ≡ ps ++ all_but_last (split_blank s))
      × (last_part (ps ++ split_blank s) ≡ last_part (split_blank s))
unfolding Shape
last_part-append ps s = elim (split_blank-Shape s) [
  | inl e ↦ rw e (all_but_last-append ps [] s)
  | inr (p, q, qs, e) ↦ rw e (all_but_last-append ps (q ∷ qs) p)
]

-- Two chunks have the effect of one that holds both.
receive_chunk-append :
    (reader : Reader) (a b : Text)
    → receive_chunk (receive_chunk reader a) b ≡ receive_chunk reader (a ++ b)
unfolding receive_chunk Grows
receive_chunk-append reader a b =
    let parts : List Text = split_blank (reader.pending ++ a) in
    let more : List Text = split_blank (last_part parts ++ b) in
    let grown : split_blank (reader.pending ++ (a ++ b)) ≡ all_but_last parts ++ more =
      ap split_blank (sym (append_assoc reader.pending a b))
      ∙ split_blank-Grows (reader.pending ++ a) b in
    let (front, last) = last_part-append (all_but_last parts) (last_part parts ++ b) in
    sym (
      ap₂ (λ pending shown. record { pending = pending; shown = shown }) (ap last_part grown ∙ last)
        (ap (λ ps. read_parts reader.shown (all_but_last ps)) grown
          ∙ ap (read_parts reader.shown) front
          ∙ read_parts-append (all_but_last parts) (all_but_last more) reader.shown))

abbrev pub concat : List Text → Text
concat [] = []
concat (chunk ∷ chunks) = chunk ++ concat chunks

receive_chunks_from :
    (chunks : List Text) (before : Text)
    → receive_chunks (receive_chunk initial before) chunks
      ≡ receive_chunk initial (before ++ concat chunks)
unfolding receive_chunks
receive_chunks_from [] before = rw (append-nil before) refl
receive_chunks_from (chunk ∷ chunks) before =
    ap (λ reader. receive_chunks reader chunks) (receive_chunk-append initial before chunk)
    ∙ receive_chunks_from chunks (before ++ chunk)
    ∙ ap (receive_chunk initial) (append_assoc before chunk (concat chunks))

-- However a response is cut into chunks, the page shows what it shows for the whole text.
pub receive_chunks-concat :
    (chunks : List Text) → receive_chunks initial chunks ≡ receive_chunk initial (concat chunks)
unfolding receive_chunks receive_chunk split_blank read_parts
receive_chunks-concat chunks = receive_chunks_from chunks []
