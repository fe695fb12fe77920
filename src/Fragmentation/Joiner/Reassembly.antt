-- ===== src/Fragmentation/Joiner/Reassembly.antt =====
-- What the joiner makes of the splitter's frames: the frames of one payload, each decoded with the flags
-- and the parts it was cut with, join to that payload.
use rsocket_go.Base.{◌≡◌, refl, ap, ◌++◌, List, [], ◌∷◌, ◌∙◌, sym, append-nil, append_assoc}
use rsocket_go.Base.{
  Bool, true, false, Option, none, some, if◌then◌else◌, nonempty, Bool-cases, inl, inr,
}
use rsocket_go.BigEndian.{Bytes}
use rsocket_go.Core.Flag
use rsocket_go.Core.Types.{check}
use rsocket_go.Framing.Shape.{reported}
use rsocket_go.Fragmentation.Splitter.{SplitResult, split_flag}
use rsocket_go.Fragmentation.Splitter.Correct.{Splits}
use rsocket_go.Fragmentation.Joiner.{Fragment, append_metadata, metadata_loop, data_loop}

-- A decoded frame that has the parts of `r` and, whatever else its header says, its two flags.
pub record Carries (r : SplitResult) (f : Fragment) : Type 0 where
  pub same_metadata : check f.flag Flag.metadata ≡ check r.flag Flag.metadata
  pub same_follow : check f.flag Flag.follow ≡ check r.flag Flag.follow
  pub metadata_part : f.metadata ≡ reported r.metadata
  pub data_part : f.data_bytes ≡ r.data_bytes

unfoldable pub AllCarry : List SplitResult → List Fragment → Type 0
AllCarry [] [] = Unit
AllCarry [] (f ∷ fs) = ⊥
AllCarry (r ∷ rs) [] = ⊥
AllCarry (r ∷ rs) (f ∷ fs) = Carries r f × AllCarry rs fs

pub metadata-split_flag : (x y : Bool) → check (split_flag x y) Flag.metadata ≡ y
unfolding split_flag check
metadata-split_flag true true = refl
metadata-split_flag true false = refl
metadata-split_flag false true = refl
metadata-split_flag false false = refl

follow-split_flag : (x y : Bool) → check (split_flag x y) Flag.follow ≡ x
unfolding split_flag check
follow-split_flag true true = refl
follow-split_flag true false = refl
follow-split_flag false true = refl
follow-split_flag false false = refl

pub carried_metadata :
    (r : SplitResult) (f : Fragment) (x y : Bool)
    → Carries r f
    → r.flag ≡ split_flag x y
    → check f.flag Flag.metadata ≡ y
carried_metadata r f x y c e =
    c.same_metadata ∙ ap (λ g. check g Flag.metadata) e ∙ metadata-split_flag x y

pub carried_follow :
    (r : SplitResult) (f : Fragment) (x y : Bool)
    → Carries r f
    → r.flag ≡ split_flag x y
    → check f.flag Flag.follow ≡ x
carried_follow r f x y c e = c.same_follow ∙ ap (λ g. check g Flag.follow) e ∙ follow-split_flag x y

-- Appending the parts of a field one by one is appending the field.
append_metadata-reported :
    (acc : Option Bytes) (xs ys : Bytes)
    → append_metadata (append_metadata acc (reported xs)) (reported ys)
      ≡ append_metadata acc (reported (xs ++ ys))
unfolding append_metadata
append_metadata-reported acc [] ys = refl
append_metadata-reported none (x ∷ xs) [] = ap (λ zs. some (x ∷ zs)) (sym (append-nil xs))
append_metadata-reported none (x ∷ xs) (y ∷ ys) = refl
append_metadata-reported (some zs) (x ∷ xs) [] =
    ap (λ ws. some (zs ++ x ∷ ws)) (sym (append-nil xs))
append_metadata-reported (some zs) (x ∷ xs) (y ∷ ys) = ap some (append_assoc zs (x ∷ xs) (y ∷ ys))

nonempty_nil : (xs : Bytes) → nonempty xs ≡ false → xs ≡ []
nonempty_nil [] e = refl
nonempty_nil (x ∷ xs) e = cc

append_metadata-none : (acc : Option Bytes) → append_metadata acc none ≡ acc
unfolding append_metadata
append_metadata-none none = refl
append_metadata-none (some m) = refl

pub metadata_loop-Splits :
    (rs : List SplitResult) (fs : List Fragment) (m d : Bytes) (acc : Option Bytes)
    → AllCarry rs fs
    → Splits rs m d
    → metadata_loop acc fs ≡ append_metadata acc (reported m)
unfolding metadata_loop AllCarry Splits
metadata_loop-Splits [] [] m d acc c (em, ed) =
    sym (append_metadata-none acc) ∙ ap (λ x. append_metadata acc (reported x)) (sym em)
metadata_loop-Splits [] (f ∷ fs) m d acc c s = elim c [ ]
metadata_loop-Splits (r ∷ rs) [] m d acc c s = elim c [ ]
metadata_loop-Splits (r ∷ rs) (f ∷ fs) m d acc (c, cs) (m', d', em, ed, ef, s) =
    elim (Bool-cases (nonempty m)) [
      | inl e ↦
          branch e
          ∙ metadata_loop-Splits rs fs m' d' (append_metadata acc f.metadata) cs s
          ∙ ap (λ x. append_metadata (append_metadata acc x) (reported m')) c.metadata_part
          ∙ append_metadata-reported acc r.metadata m'
          ∙ ap (λ x. append_metadata acc (reported x)) (sym em)
      | inr e ↦
          branch e
          ∙ sym (append_metadata-none acc)
          ∙ ap (λ x. append_metadata acc (reported x)) (sym (nonempty_nil m e))
    ]
  where
    rest : Option Bytes
    rest = metadata_loop (append_metadata acc f.metadata) fs

    branch :
        {b : Bool}
        → nonempty m ≡ b
        → (if check f.flag Flag.metadata then rest else acc) ≡ (if b then rest else acc)
    branch e =
        ap (λ b. if b then rest else acc) (carried_metadata r f (nonempty rs) (nonempty m) c ef ∙ e)

append_data : (acc xs : Bytes) → (if nonempty xs then acc ++ xs else acc) ≡ acc ++ xs
append_data acc [] = sym (append-nil acc)
append_data acc (x ∷ xs) = refl

pub data_loop-Splits :
    (rs : List SplitResult) (fs : List Fragment) (m d acc : Bytes)
    → AllCarry rs fs
    → Splits rs m d
    → data_loop acc fs ≡ acc ++ d
unfolding data_loop AllCarry Splits
data_loop-Splits [] [] m d acc c (em, ed) = sym (append-nil acc) ∙ ap (λ x. acc ++ x) (sym ed)
data_loop-Splits [] (f ∷ fs) m d acc c s = elim c [ ]
data_loop-Splits (r ∷ rs) [] m d acc c s = elim c [ ]
data_loop-Splits (r ∷ rs) (f ∷ fs) m d acc (c, cs) (m', d', em, ed, ef, s) =
    ap (λ x. data_loop x fs) (append_data acc f.data_bytes)
    ∙ data_loop-Splits rs fs m' d' (acc ++ f.data_bytes) cs s
    ∙ append_assoc acc f.data_bytes d'
    ∙ ap (λ x. acc ++ x) (ap (λ x. x ++ d') c.data_part ∙ sym ed)
