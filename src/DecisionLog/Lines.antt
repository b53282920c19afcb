-- ===== src/DecisionLog/Lines.antt =====
-- The entries that a buffered log holds, answered or not, in the order in which they came.
use accesscore.Prelude.{
  ◌≡◌, ℕ, zero, suc, refl, sym, ap, ◌∙◌, Bool, List, [], ◌∷◌, ◌++◌, take, drop, append_assoc,
  append-nil, length, Option, none, some, subst,
}
use mathlib.Core.List.{Perm}
use mathlib.Core.List.Perm
use accesscore.DecisionLog.{
  DecisionLogRecord, Flushing, no_flush, writing, settling, BufferedLog, behind, pick,
}

unfoldable pub batched : List (List DecisionLogRecord × Bool) → List DecisionLogRecord
batched [] = []
batched ((batch, _) ∷ answers) = batch ++ batched answers

unfoldable pub singly : List (DecisionLogRecord × Bool) → List DecisionLogRecord
singly [] = []
singly ((entry, _) ∷ answers) = entry ∷ singly answers

abbrev pub in_flight : Flushing → List DecisionLogRecord
in_flight (writing batch) = batch
in_flight no_flush = []
in_flight settling = []

-- The entries of the buffer: those answered, those being written and those waiting.
abbrev pub line : BufferedLog → List DecisionLogRecord
line s = batched s.answered ++ (in_flight s.flushing ++ s.buffer)

-- The entries past the bound.
abbrev pub direct_line : BufferedLog → List DecisionLogRecord
direct_line s = singly s.answered_direct ++ s.direct

pub take-drop {ℓ} : {A : Type ℓ} (n : ℕ) (xs : List A) → take n xs ++ drop n xs ≡ xs
take-drop zero xs = refl
take-drop (suc n) [] = refl
take-drop (suc n) (x ∷ xs) = ap (λ l. x ∷ l) (take-drop n xs)

pub batched-append :
    (answers : List (List DecisionLogRecord × Bool)) (batch : List DecisionLogRecord) (taken : Bool)
    → batched (answers ++ (batch, taken) ∷ []) ≡ batched answers ++ batch
unfolding batched
batched-append [] batch taken = append-nil _
batched-append ((b, _) ∷ answers) batch taken =
    ap (λ l. b ++ l) (batched-append answers batch taken)
    ∙ sym (append_assoc b (batched answers) batch)

pub singly-append :
    (answers : List (DecisionLogRecord × Bool)) (entry : DecisionLogRecord) (taken : Bool)
    → singly (answers ++ (entry, taken) ∷ []) ≡ singly answers ++ entry ∷ []
unfolding singly
singly-append [] entry taken = refl
singly-append ((e, _) ∷ answers) entry taken = ap (λ l. e ∷ l) (singly-append answers entry taken)

pub Perm_of_eq {ℓ} : {A : Type ℓ} {xs ys : List A} → xs ≡ ys → Perm xs ys
Perm_of_eq {xs = xs} e = subst (λ l. Perm xs l) e (Perm.refl xs)

-- A picked entry and the others are the whole.
pub pick-Perm :
    (place : ℕ) (xs : List DecisionLogRecord) (x : DecisionLogRecord)
    (others : List DecisionLogRecord)
    → pick place xs ≡ some (x, others)
    → Perm xs (x ∷ others) × (length xs ≡ suc (length others))
unfolding pick
pick-Perm place [] x others e = absurd (cc e)
pick-Perm zero (y ∷ ys) x others e =
    let same : y ∷ ys ≡ x ∷ others = cc e in (Perm_of_eq same, ap length same)
pick-Perm (suc place) (y ∷ ys) x others e = through (pick place ys) (pick-Perm place ys) e
  where
    through :
        (picked : Option (DecisionLogRecord × List DecisionLogRecord))
        → ((z : DecisionLogRecord) (zs : List DecisionLogRecord)
            → picked ≡ some (z, zs)
            → Perm ys (z ∷ zs) × (length ys ≡ suc (length zs)))
        → behind y picked ≡ some (x, others)
        → Perm (y ∷ ys) (x ∷ others) × (length (y ∷ ys) ≡ suc (length others))
    through none rest h = absurd (cc h)
    through (some (z, zs)) rest h =
        let (moved, long) = rest z zs refl in
        let same : z ∷ y ∷ zs ≡ x ∷ others = cc h in
        (
          Perm.trans (Perm.trans (Perm.cons y moved) (Perm.swap z y zs)) (Perm_of_eq same),
          ap suc long ∙ ap length same,
        )
