-- ===== src/Loader/Order.antt =====
-- What LoadModuleGraph returns.
use voodoo.Prelude.{
  arith, ℕ, zero, suc, ◌+◌, ◌≤◌, ◌<◌, List, [], ◌∷◌, ◌++◌, Bool, true, false, Option, none, some,
  ◌≡◌, ◌≢◌, refl, sym, ap, subst, ◌∙◌, inl, inr, length, if◌then◌else◌, Bool-cases,
}
use voodoo.Prelude.Text.{Bytes, mem_text, same_text, same_text_refl, same_text_eq, codes}
use voodoo.Loader.Paths.{normalize_path}
use voodoo.Loader.State.{
  Parser, LoadedFile, LoadState, Settings, done, load_error, no_fuel, and_then, initial_state,
  ends_with,
}
use voodoo.Loader.Load.{load_file_into, load_module_graph}
use voodoo.Loader.Graph.{WellLoaded}
use voodoo.Loader.Post.{Post, Post-and_then, true-false}
use voodoo.Loader.Sound.{Sound, Loaded}
use voodoo.Loader.Files.{load_file_into-Post}

-- How many of the files are not being loaded.
abbrev waiting : List Bytes → List Bytes → ℕ
waiting [] loading = 0
waiting (p ∷ files) loading = (if mem_text p loading then 0 else 1) + waiting files loading

waiting-le : (files loading : List Bytes) → waiting files loading ≤ length files
waiting-le [] loading = omega arith
waiting-le (p ∷ files) loading = ground (arith, waiting-le files loading)

waiting_mono :
    (files loading : List Bytes) (q : Bytes) → waiting files (q ∷ loading) ≤ waiting files loading
waiting_mono [] loading q = omega arith
waiting_mono (p ∷ files) loading q = ground (arith, waiting_mono files loading q)

-- A file that was waiting no longer is once it is being loaded.
waiting-lt :
    (files loading : List Bytes) (q : Bytes)
    → mem_text q files ≡ true
    → mem_text q loading ≡ false
    → waiting files (q ∷ loading) < waiting files loading
waiting-lt [] loading q h k = absurd (true-false (sym h))
waiting-lt (p ∷ files) loading q h k = elim (Bool-cases (same_text q p)) [
  | inl e ↦ ground (
    arith,
    ap (λ x. mem_text x loading) (sym (same_text_eq q p e)) ∙ k,
    ap (λ x. same_text x q) (sym (same_text_eq q p e)) ∙ same_text_refl q,
    waiting_mono files loading q,
  )
  | inr e ↦ ground (arith, waiting-lt files loading q (ground (arith, h, e)) k)
]

module _ {State : Type 0} (parser : Parser State) (settings : Settings) where
  initial_state-Sound :
      (skipped : Option (List Bytes)) → Sound parser settings (initial_state skipped)
  initial_state-Sound skipped = record {
    well_loaded = tt;
    accumulated_all = refl;
    merged_found = λ p h. absurd (true-false (sym h));
    graph_merged = λ p h. absurd (true-false (sym h));
    loading_fresh = λ p h. refl;
    strict = λ h. refl;
  }

  abbrev Answer : Type 0
  Answer = List LoadedFile × Bool × Option (List Bytes)

  -- The whole call, with a supply of fuel.
  load_module_graph-Post :
      (Unfueled : Type 0) (Fueled : ℕ → List Bytes → Type 0)
      → ((loading : List Bytes) → Fueled zero loading → Unfueled)
      → ((n : ℕ) (loading : List Bytes) (p content : Bytes)
          → settings.read_file p ≡ some content
          → mem_text p loading ≡ false
          → Fueled (suc n) loading
          → Fueled n (p ∷ loading))
      → (fuel : ℕ) (entry_path : Bytes) (skipped : Option (List Bytes)) → Fueled fuel []
      → Post Unfueled
          (λ (r : Answer).
            WellLoaded parser settings (initial_state skipped).per_file [] r.0
            × ((initial_state skipped).per_file ≡ false
                → ends_with (normalize_path entry_path) r.0 ≡ true))
          (load_module_graph parser settings fuel entry_path skipped)
  unfolding load_module_graph
  load_module_graph-Post U F stops goes fuel entry_path skipped f =
      go (settings.read_file (normalize_path entry_path)) refl
    where
      entry : Bytes
      entry = normalize_path entry_path

      start : LoadState
      start = initial_state skipped

      answer :
          (st : LoadState)
          → Loaded parser settings entry start st
          → WellLoaded parser settings start.per_file [] st.graph
            × (start.per_file ≡ false → ends_with entry st.graph ≡ true)
      answer st l = (
        subst (λ b. WellLoaded parser settings b [] st.graph) l.extends.same_mode
            l.sound.well_loaded,
        λ strict. elim (l.lands refl) [
          | inl lost ↦ absurd (
              true-false
                (sym lost ∙ ap (mem_text entry) (l.sound.strict (l.extends.same_mode ∙ strict))))
          | inr last ↦ last
        ],
      )

      go :
          (o : Option Bytes)
          → settings.read_file entry ≡ o
          → Post U
              (λ (r : Answer).
                WellLoaded parser settings start.per_file [] r.0
                × (start.per_file ≡ false → ends_with entry r.0 ≡ true))
              (elim o [
                | none ↦ load_error (codes "cannot open '" ++ entry_path ++ codes "' for reading")
                | some content ↦
                    and_then
                      (load_file_into parser settings fuel entry content start)
                      λ st. done (st.graph, ends_with entry st.graph, st.skipped)
              ])
      go none e = tt
      go (some content) e =
          Post-and_then U (Loaded parser settings entry start) _
            (load_file_into parser settings fuel entry content start) _
            (load_file_into-Post parser settings U F stops goes fuel entry content start
              (initial_state-Sound skipped) e f)
            answer

-- In the graph that LoadModuleGraph returns, whatever the parser and the files, no two files have one
-- path; each import of a file names a file before it, the one that ResolveImport finds, or has no
-- path, which happens in per-file mode only; and each file's module is what the parser makes of the
-- text at its path and of the declarations of the files before it, filtered by ApplyEnableIf.
pub load_module_graph-WellLoaded :
    {State : Type 0} (parser : Parser State) (settings : Settings) (fuel : ℕ) (entry_path : Bytes)
    (skipped : Option (List Bytes)) (graph : List LoadedFile) (entry_loaded : Bool)
    (messages : Option (List Bytes))
    → load_module_graph parser settings fuel entry_path skipped
      ≡ done (graph, entry_loaded, messages)
    → WellLoaded parser settings (initial_state skipped).per_file [] graph
load_module_graph-WellLoaded parser settings fuel entry_path skipped graph entry_loaded messages e =
    (subst
      (Post Unit (λ r.
        WellLoaded parser settings (initial_state skipped).per_file [] r.0
        × ((initial_state skipped).per_file ≡ false
            → ends_with (normalize_path entry_path) r.0 ≡ true)))
      e
      (load_module_graph-Post parser settings Unit (λ n l. Unit) (λ l f. tt) (λ n l p c h k f. tt)
        fuel entry_path skipped tt)).0

-- Where LoadModuleGraph returns a graph without per-file mode, the last file of the graph has the
-- path of the entry file.
pub load_module_graph-ends_with :
    {State : Type 0} (parser : Parser State) (settings : Settings) (fuel : ℕ) (entry_path : Bytes)
    (graph : List LoadedFile) (entry_loaded : Bool) (messages : Option (List Bytes))
    → load_module_graph parser settings fuel entry_path none ≡ done (graph, entry_loaded, messages)
    → ends_with (normalize_path entry_path) graph ≡ true
load_module_graph-ends_with parser settings fuel entry_path graph entry_loaded messages e =
    (subst
        (Post Unit (λ r.
          WellLoaded parser settings false [] r.0
          × (false ≡ false → ends_with (normalize_path entry_path) r.0 ≡ true)))
        e
        (load_module_graph-Post parser settings Unit (λ n l. Unit) (λ l f. tt) (λ n l p c h k f. tt)
          fuel entry_path none tt)).1
      refl

-- Where every path that can be read is in a list of files, fuel beyond its length is enough for
-- LoadModuleGraph to end, cycles of imports included.
pub load_module_graph-ne-no_fuel :
    {State : Type 0} (parser : Parser State) (settings : Settings) (files : List Bytes)
    → ((p content : Bytes) → settings.read_file p ≡ some content → mem_text p files ≡ true)
    → (fuel : ℕ) → length files < fuel
    → (entry_path : Bytes) (skipped : Option (List Bytes))
    → load_module_graph parser settings fuel entry_path skipped ≢ no_fuel
load_module_graph-ne-no_fuel parser settings files finite fuel enough entry_path skipped e =
    subst
      (Post ⊥ (λ r.
        WellLoaded parser settings (initial_state skipped).per_file [] r.0
        × ((initial_state skipped).per_file ≡ false
            → ends_with (normalize_path entry_path) r.0 ≡ true)))
      e
      (load_module_graph-Post parser settings ⊥ (λ n l. waiting files l < n)
        (λ l h. absurd (omega (arith, h)))
        (λ n l p c h k f. omega (arith, f, waiting-lt files l p (finite p c h) k)) fuel entry_path
        skipped (omega (arith, waiting-le files [])))
