-- ===== src/Loader/Sound.antt =====
-- The invariant of LoadState, and what the ends of LoadFileInto do to it.
use voodoo.Prelude.{
  arith, [], ◌∷◌, ◌++◌, Bool, true, false, ◌||◌, ◌≡◌, refl, sym, ap, ◌∙◌, ◌⊎◌, inl, inr,
  if◌then◌else◌, Bool-cases,
}
use voodoo.Prelude.Text.{Bytes, mem_text, same_text, same_text_refl, same_text_eq}
use voodoo.Ast.{Module}
use voodoo.Loader.Merge.{empty_prelude, merge_into_accumulated}
use voodoo.Loader.State.{
  FileHeader, Parser, LoadedFile, LoadState, Settings, done, load_error, give_up, skip_message,
  ends_with, pop_back, push_file,
}
use voodoo.Loader.Graph.{
  paths, accumulate, accumulate-snoc, mem_text-append, paths-snoc, FileOk, WellLoaded,
  WellLoaded-snoc,
}
use voodoo.Loader.Post.{ends_with-snoc, Post, either, true-false, Extends}

module _ {State : Type 0} (parser : Parser State) (settings : Settings) where
  pub record Sound (st : LoadState) : Type 0 where
    pub well_loaded : WellLoaded parser settings st.per_file [] st.graph
    pub accumulated_all : st.accumulated ≡ accumulate empty_prelude st.graph
    pub merged_found :
        (p : Bytes)
        → mem_text p st.merged ≡ true
        → (mem_text p (paths st.graph) ≡ true) ⊎ (mem_text p st.failed_paths ≡ true)
    pub graph_merged :
        (p : Bytes) → mem_text p (paths st.graph) ≡ true → mem_text p st.merged ≡ true
    pub loading_fresh : (p : Bytes) → mem_text p st.loading ≡ true → mem_text p st.merged ≡ false
    pub strict : st.per_file ≡ false → st.failed_paths ≡ []

  -- What LoadFileInto has done, from `st`, once it returns in `st'`.
  pub record Loaded (path : Bytes) (st st' : LoadState) : Type 0 where
    pub sound : Sound st'
    pub extends : Extends st st'
    pub merges : mem_text path st'.merged ≡ true
    pub lands :
        mem_text path st.merged ≡ false
        → (mem_text path st'.failed_paths ≡ true) ⊎ (ends_with path st'.graph ≡ true)

  pub skip_message-Sound : (msg : Bytes) (st : LoadState) → Sound st → Sound (skip_message msg st)
  skip_message-Sound msg st s = record {
    well_loaded = s.well_loaded;
    accumulated_all = s.accumulated_all;
    merged_found = s.merged_found;
    graph_merged = s.graph_merged;
    loading_fresh = s.loading_fresh;
    strict = s.strict;
  }

  -- A path that is being loaded, and is in no other place, is left.
  module _ (path : Bytes) (start st : LoadState) where
    -- The file at `path` is being loaded, from the state `start`.
    pub record Inside : Type 0 where
      pub sound : Sound st
      pub within : st.loading ≡ path ∷ start.loading
      pub outside : mem_text path start.loading ≡ false
      pub same_mode : st.per_file ≡ start.per_file
      pub grows :
          (p : Bytes) → mem_text p (paths start.graph) ≡ true → mem_text p (paths st.graph) ≡ true

    Inside-fresh : Inside → mem_text path st.merged ≡ false
    Inside-fresh i =
        i.sound.loading_fresh path
          (ap (mem_text path) i.within ∙ ground (arith, same_text_refl path))

    pub Inside-unlisted : Inside → mem_text path (paths st.graph) ≡ false
    Inside-unlisted i = elim (Bool-cases (mem_text path (paths st.graph))) [
      | inl e ↦ absurd (true-false (sym (i.sound.graph_merged path e) ∙ Inside-fresh i))
      | inr e ↦ e
    ]

    -- What is merged once `path` is, and what is still being loaded, are apart.
    leaves_fresh :
        Inside
        → (p : Bytes) → mem_text p (pop_back st.loading) ≡ true
        → mem_text p (path ∷ st.merged) ≡ false
    leaves_fresh i p h =
        let before : mem_text p start.loading ≡ true =
          ap (λ l. mem_text p (pop_back l)) (sym i.within) ∙ h in
        elim (Bool-cases (same_text p path)) [
          | inl e ↦ absurd (clash (same_text_eq p path e) before i.outside)
          | inr e ↦ ground (
            arith,
            e,
            i.sound.loading_fresh p (ap (mem_text p) i.within ∙ ground (arith, before)),
          )
        ]
      where
        clash :
            {q : Bytes}
            → p ≡ q
            → mem_text p start.loading ≡ true
            → mem_text q start.loading ≡ false
            → ⊥
        clash e h k = cc

    -- GiveUp, and the return behind it.
    pub give_up-Loaded :
        (Unfueled : Type 0) (msg : Bytes)
        → Inside
        → Post Unfueled (Loaded path start) (give_up path msg st)
    give_up-Loaded U msg i = go st.per_file refl
      where
        st' : LoadState
        st' = record st {
          loading = pop_back st.loading;
          merged = path ∷ st.merged;
          failed_paths = path ∷ st.failed_paths;
        }

        go :
            (b : Bool)
            → st.per_file ≡ b
            → Post U (Loaded path start) (if b then done (skip_message msg st') else load_error msg)
        go false e = tt
        go true e = record {
          sound = record {
            well_loaded = i.sound.well_loaded;
            accumulated_all = i.sound.accumulated_all;
            merged_found = λ p h. elim (either (same_text p path) (mem_text p st.merged) h) [
              | inl here ↦ inr (ground (arith, here))
              | inr there ↦ elim (i.sound.merged_found p there) [
                | inl found ↦ inl found
                | inr lost ↦ inr (ground (arith, lost))
              ]
            ];
            graph_merged = λ p h. ground (arith, i.sound.graph_merged p h);
            loading_fresh = leaves_fresh i;
            strict = λ h. absurd (true-false (sym e ∙ h));
          };
          extends = record {
            same_loading = ap pop_back i.within;
            same_mode = i.same_mode;
            grows = i.grows;
          };
          merges = ground (arith, same_text_refl path);
          lands = λ h. inl (ground (arith, same_text_refl path));
        }

    -- A file that the parser accepts goes to the back of the graph.
    pub finish-Loaded :
        (header : FileHeader) (m : Module)
        → Inside
        → FileOk parser settings st.per_file st.graph
            (record { resolved_path = path; file_module = m })
        → m.name ≡ header.module_name
        → Loaded path start (push_file path header.module_name m st)
    finish-Loaded header m i ok named = record {
      sound = record {
        well_loaded =
            WellLoaded-snoc parser settings st.per_file [] st.graph file i.sound.well_loaded ok;
        accumulated_all =
            ap (λ a. merge_into_accumulated a m header.module_name) i.sound.accumulated_all
            ∙ ap (merge_into_accumulated (accumulate empty_prelude st.graph) m) (sym named)
            ∙ sym (accumulate-snoc empty_prelude st.graph file);
        merged_found = λ p h. elim (either (same_text p path) (mem_text p st.merged) h) [
          | inl here ↦ inl (in_graph p ∙ ground (arith, here))
          | inr there ↦ elim (i.sound.merged_found p there) [
            | inl found ↦ inl (in_graph p ∙ ground (arith, found))
            | inr lost ↦ inr lost
          ]
        ];
        graph_merged = λ p h.
            elim (either (mem_text p (paths st.graph)) (same_text p path) (sym (in_graph p) ∙ h)) [
              | inl found ↦ ground (arith, i.sound.graph_merged p found)
              | inr here ↦ ground (arith, here)
            ];
        loading_fresh = leaves_fresh i;
        strict = i.sound.strict;
      };
      extends = record {
        same_loading = ap pop_back i.within;
        same_mode = i.same_mode;
        grows = λ p h. in_graph p ∙ ground (arith, i.grows p h);
      };
      merges = ground (arith, same_text_refl path);
      lands = λ h. inr (ends_with-snoc path st.graph file ∙ same_text_refl path);
    }
      where
        file : LoadedFile
        file = record { resolved_path = path; file_module = m }

        in_graph :
            (p : Bytes)
            → mem_text p (paths (st.graph ++ file ∷ []))
              ≡ (mem_text p (paths st.graph) || same_text p path)
        in_graph p =
            ap (mem_text p) (paths-snoc st.graph file)
            ∙ mem_text-append p (paths st.graph) (path ∷ [])
            ∙ ground arith
