-- ===== src/Loader/Post.antt =====
-- What holds of an outcome, and what a load keeps of its state.
use voodoo.Prelude.{
  List, [], ◌∷◌, ◌++◌, Bool, true, false, ◌||◌, ◌≡◌, refl, ◌∙◌, ◌⊎◌, inl, inr, if◌then◌else◌,
}
use voodoo.Prelude.Text.{Bytes, mem_text, same_text}
use voodoo.Loader.State.{
  LoadedFile, LoadState, Outcome, done, load_error, uncaught, no_fuel, and_then, ends_with,
}
use voodoo.Loader.Graph.{paths}

-- What holds of the value of an outcome; the model's fuel runs out only where `Unfueled` holds.
abbrev pub Post : Type 0 → {A : Type 0} → (A → Type 0) → Outcome A → Type 0
Post Unfueled P (done a) = P a
Post Unfueled P (load_error what) = Unit
Post Unfueled P uncaught = Unit
Post Unfueled P no_fuel = Unfueled

pub Post-and_then :
    (Unfueled : Type 0) {A B : Type 0} (P : A → Type 0) (Q : B → Type 0) (o : Outcome A)
    (k : A → Outcome B)
    → Post Unfueled P o
    → ((a : A) → P a → Post Unfueled Q (k a))
    → Post Unfueled Q (and_then o k)
Post-and_then U P Q (done a) k h f = f a h
Post-and_then U P Q (load_error what) k h f = tt
Post-and_then U P Q uncaught k h f = tt
Post-and_then U P Q no_fuel k h f = h

pub Post-if :
    (Unfueled : Type 0) {A : Type 0} (P : A → Type 0) (b : Bool) (x y : Outcome A)
    → (b ≡ true → Post Unfueled P x)
    → (b ≡ false → Post Unfueled P y)
    → Post Unfueled P (if b then x else y)
Post-if U P true x y f g = f refl
Post-if U P false x y f g = g refl

pub either : (a b : Bool) → (a || b) ≡ true → (a ≡ true) ⊎ (b ≡ true)
either true b h = inl refl
either false b h = inr h

pub true-false : true ≡ false → ⊥
true-false h = cc

pub ends_with-snoc :
    (p : Bytes) (fs : List LoadedFile) (f : LoadedFile)
    → ends_with p (fs ++ f ∷ []) ≡ same_text f.resolved_path p
ends_with-snoc p [] f = refl
ends_with-snoc p (g ∷ []) f = refl
ends_with-snoc p (g ∷ h ∷ fs) f = ends_with-snoc p (h ∷ fs) f

-- What a load keeps of the state that it starts from.
pub record Extends (st st' : LoadState) : Type 0 where
  pub same_loading : st'.loading ≡ st.loading
  pub same_mode : st'.per_file ≡ st.per_file
  pub grows : (p : Bytes) → mem_text p (paths st.graph) ≡ true → mem_text p (paths st'.graph) ≡ true

pub Extends-refl : (st : LoadState) → Extends st st
Extends-refl st = record { same_loading = refl; same_mode = refl; grows = λ p h. h }

pub Extends-trans : {a b c : LoadState} → Extends a b → Extends b c → Extends a c
Extends-trans h k = record {
  same_loading = k.same_loading ∙ h.same_loading;
  same_mode = k.same_mode ∙ h.same_mode;
  grows = λ p e. k.grows p (h.grows p e);
}
