-- ===== src/Orders/Flag/Follows.antt =====
-- What the watcher makes of the contents that it reads.
use mathlib.Core.List.{reverse, reverse-cons, reverse-append, reverse-reverse}
use reliability_lab.Common.{
  ℕ, ◌≡◌, refl, sym, ap, ◌∙◌, inl, inr, List, [], ◌∷◌, ◌++◌, none, some, true, false, not, length,
  ◌≤◌, ◌≢◌, Bool-cases, All, All-append, arith,
}
use reliability_lab.Common.Text.{codes, is_space, trim_left, trim_space, equal_fold}
use reliability_lab.Orders.Flag.{
  File, read, Event, ctx_done, tick, changed, events_closed, watch_error, errors_closed, loop,
  watch_circuit_break,
}

-- The last content that is read before the watcher returns.
abbrev pub last_file : {E : Type 0} → File → List (Event E) → File
last_file file [] = file
last_file file (ctx_done ∷ events) = file
last_file file (tick f ∷ events) = last_file f events
last_file file (changed f ∷ events) = last_file f events
last_file file (events_closed ∷ events) = file
last_file file (watch_error e ∷ events) = last_file file events
last_file file (errors_closed ∷ events) = file

loop-last_file :
    {E : Type 0} (file : File) (events : List (Event E))
    → (loop (read file) events).0 ≡ read (last_file file events)
unfolding loop
loop-last_file file [] = refl
loop-last_file file (ctx_done ∷ events) = refl
loop-last_file file (tick f ∷ events) = loop-last_file f events
loop-last_file file (changed f ∷ events) = loop-last_file f events
loop-last_file file (events_closed ∷ events) = refl
loop-last_file file (watch_error e ∷ events) = loop-last_file file events
loop-last_file file (errors_closed ∷ events) = refl

-- A watcher that starts leaves `paused`, after any events, as the last content read says; errors of
-- the watcher and a closed channel do not change it.
pub watch_circuit_break-last_file :
    {E : Type 0} (file : File) (events : List (Event E))
    → (watch_circuit_break file none none events).0 ≡ read (last_file file events)
unfolding watch_circuit_break
watch_circuit_break-last_file file events = loop-last_file file events

abbrev pub IsBlank : List ℕ → Type 0
IsBlank = All (λ c. is_space c ≡ true)

-- No space at either end.
abbrev pub IsTrimmed : List ℕ → Type 0
IsTrimmed b = (trim_left b ≡ b) × (trim_left (reverse b) ≡ reverse b)

trim_left-blank : (l s : List ℕ) → IsBlank l → trim_left (l ++ s) ≡ trim_left s
unfolding trim_left
trim_left-blank [] s h = refl
trim_left-blank (c ∷ l) s (h, hs) = rw h (trim_left-blank l s hs)

length-trim_left : (s : List ℕ) → length (trim_left s) ≤ length s
unfolding trim_left
length-trim_left [] = omega arith
length-trim_left (c ∷ s) = ground (arith, length-trim_left s)

head_not_space : (c : ℕ) (s : List ℕ) → trim_left (c ∷ s) ≡ c ∷ s → is_space c ≡ false
unfolding trim_left
head_not_space c s e = elim (Bool-cases (is_space c)) [
  | inl sp ↦
      let short : trim_left s ≡ c ∷ s = rw sp at e in
      absurd (omega (arith, ap length short, length-trim_left s))
  | inr sp ↦ sp
]

trim_left-append :
    (c : ℕ) (b s : List ℕ) → is_space c ≡ false → trim_left ((c ∷ b) ++ s) ≡ (c ∷ b) ++ s
unfolding trim_left
trim_left-append c b s h = rw h

pub All-reverse : (l : List ℕ) → IsBlank l → IsBlank (reverse l)
All-reverse [] h = tt
All-reverse (c ∷ l) (h, hs) =
    rw (reverse-cons c l) (All-append _ (reverse l) (c ∷ []) (All-reverse l hs) (h, tt))

trim_left-IsTrimmed : (b s : List ℕ) → trim_left b ≡ b → b ≢ [] → trim_left (b ++ s) ≡ b ++ s
trim_left-IsTrimmed [] s e ne = absurd (ne refl)
trim_left-IsTrimmed (c ∷ b) s e ne = trim_left-append c b s (head_not_space c b e)

reverse-ne-nil : (b : List ℕ) → b ≢ [] → reverse b ≢ []
reverse-ne-nil b ne e = ne (sym (reverse-reverse b) ∙ ap reverse e)

trim_space-blank : (l : List ℕ) → IsBlank l → trim_space l ≡ []
unfolding trim_space
trim_space-blank l h = rw (trim_left-all l h) refl
  where
    trim_left-all : (l : List ℕ) → IsBlank l → trim_left l ≡ []
    trim_left-all [] h = unfold trim_left in refl
    trim_left-all (c ∷ l) (h, hs) = unfold trim_left in rw h (trim_left-all l hs)

trim_space-pad :
    (l b r : List ℕ) → IsBlank l → IsBlank r → IsTrimmed b → trim_space (l ++ (b ++ r)) ≡ b
unfolding trim_space
trim_space-pad l [] r hl hr t = trim_space-blank (l ++ r) (All-append _ l r hl hr)
trim_space-pad l (c ∷ b) r hl hr (front, back) =
    rw
      (
        trim_left-blank l ((c ∷ b) ++ r) hl,
        trim_left-IsTrimmed (c ∷ b) r front (λ e. cc),
        reverse-append (c ∷ b) r,
        trim_left-blank (reverse r) (reverse (c ∷ b)) (All-reverse r hr),
        back,
      )
      (reverse-reverse (c ∷ b))

-- Space around the value makes no difference: a file that holds it is read as paused exactly when
-- the value, without the space, is not "true" in any case of its letters.
pub read-pad :
    (l b r : List ℕ)
    → IsBlank l
    → IsBlank r
    → IsTrimmed b
    → read (some (l ++ (b ++ r))) ≡ not (equal_fold b (codes "true"))
unfolding read
read-pad l b r hl hr t = rw (trim_space-pad l b r hl hr t) refl
