-- ===== src/Loader/Files.antt =====
-- The invariant over LoadFileInto.
use voodoo.Prelude.{ℕ, zero, suc, List, ◌∷◌, false, some, ◌≡◌, refl, sym, ap, subst, ◌∙◌, inl, inr}
use voodoo.Prelude.Text.{Bytes, mem_text, same_text, same_text_eq}
use voodoo.Ast.{Module}
use voodoo.Gating.{apply_enable_if}
use voodoo.Lexer.Types.{Token}
use voodoo.Lexer.Tokenize.{LexResult, tokens, failed, out_of_range, out_of_fuel, tokenize}
use voodoo.Lexer.Ends.{tokenize-ne-out_of_fuel}
use voodoo.Loader.State.{
  Parsed, parsed, parse_error, parse_throws, FileHeader, Parser, LoadState, Settings, Outcome, done,
  uncaught, give_up, Imported, push_file, file_error, lex_error_what,
}
use voodoo.Loader.Load.{
  load_imports, finish_module, finish_file, load_parsed, load_tokens, load_file_into,
}
use voodoo.Loader.Post.{Post, Post-and_then, Extends-refl, Post-if, true-false, either}
use voodoo.Loader.Sound.{Sound, Loaded, Inside, Inside-unlisted, give_up-Loaded, finish-Loaded}
use voodoo.Loader.Loads.{Imports, load_imports-Post}

module _ {State : Type 0} (parser : Parser State) (settings : Settings) where
  module _ (Unfueled : Type 0) (load : Bytes → Bytes → LoadState → Outcome LoadState) (path : Bytes)
      (start : LoadState)
      (loads : (p content : Bytes) (st : LoadState)
        → Inside parser settings path start st
        → settings.read_file p ≡ some content
        → Post Unfueled (Loaded parser settings p st) (load p content st)) where
    finish_file-Post :
        (header : FileHeader) (p : State) (st : LoadState) (content : Bytes) (ts : List Token)
        → settings.read_file path ≡ some content
        → tokenize settings.long_max content ≡ tokens ts
        → parser.parse_header ts ≡ parsed (header, p)
        → (r : Imported) → Imports parser settings path start st header.imports r
        → Post Unfueled
            (Loaded parser settings path start)
            (finish_file parser settings path header p r)
    unfolding finish_file
    finish_file-Post header p st content ts reads lexes parses (imps, s) h =
        go (parser.parse_body p s.accumulated) refl
      where
        go :
            (b : Parsed Module)
            → parser.parse_body p s.accumulated ≡ b
            → Post Unfueled (Loaded parser settings path start) (elim b [
              | parse_error what ↦ give_up path (file_error path what) s
              | parse_throws ↦ uncaught
              | parsed body ↦ done (
                  push_file path header.module_name
                    (finish_module parser settings header imps body)
                    s)
            ])
        go (parse_error what) e =
            give_up-Loaded parser settings path start s Unfueled (file_error path what) h.inside
        go parse_throws e = tt
        go (parsed body) e =
            unfold apply_enable_if in
            finish-Loaded parser settings path start s header
              (finish_module parser settings header imps body) h.inside
              (
                Inside-unlisted parser settings path start s h.inside,
                h.all_ok,
                record {
                  content = content;
                  text_tokens = ts;
                  header = header;
                  state = p;
                  body = body;
                  reads = reads;
                  lexes = lexes;
                  parses = parses;
                  parses_body = ap (parser.parse_body p) (sym h.inside.sound.accumulated_all) ∙ e;
                  imported = h.same_paths;
                  gated = refl;
                },
              )
              refl

    load_parsed-Post :
        (content : Bytes) (ts : List Token) (st : LoadState)
        → settings.read_file path ≡ some content
        → tokenize settings.long_max content ≡ tokens ts
        → Inside parser settings path start st
        → (r : Parsed (FileHeader × State)) → parser.parse_header ts ≡ r
        → Post Unfueled
            (Loaded parser settings path start)
            (load_parsed parser settings load path r st)
    unfolding load_parsed
    load_parsed-Post content ts st reads lexes i (parse_error what) e =
        give_up-Loaded parser settings path start st Unfueled (file_error path what) i
    load_parsed-Post content ts st reads lexes i parse_throws e = tt
    load_parsed-Post content ts st reads lexes i (parsed (header, p)) e =
        Post-and_then Unfueled (Imports parser settings path start st header.imports) _
          (load_imports parser settings load path header.imports st)
          (finish_file parser settings path header p)
          (load_imports-Post parser settings Unfueled load path start loads header.imports st i)
          (finish_file-Post header p st content ts reads lexes e)

    load_tokens-Post :
        (content : Bytes) (st : LoadState)
        → settings.read_file path ≡ some content
        → Inside parser settings path start st
        → (r : LexResult) → tokenize settings.long_max content ≡ r
        → Post Unfueled
            (Loaded parser settings path start)
            (load_tokens parser settings load path r st)
    unfolding load_tokens
    load_tokens-Post content st reads i (tokens ts) e =
        load_parsed-Post content ts st reads e i (parser.parse_header ts) refl
    load_tokens-Post content st reads i (failed x) e =
        give_up-Loaded parser settings path start st Unfueled (file_error path (lex_error_what x)) i
    load_tokens-Post content st reads i out_of_range e = tt
    load_tokens-Post content st reads i out_of_fuel e =
        absurd (tokenize-ne-out_of_fuel settings.long_max content e)

  enter-Inside :
      (path : Bytes) (st : LoadState)
      → Sound parser settings st
      → mem_text path st.merged ≡ false
      → mem_text path st.loading ≡ false
      → Inside parser settings path st (record st { loading = path ∷ st.loading })
  enter-Inside path st s fresh out = record {
    sound = record {
      well_loaded = s.well_loaded;
      accumulated_all = s.accumulated_all;
      merged_found = s.merged_found;
      graph_merged = s.graph_merged;
      loading_fresh = λ p h. elim (either (same_text p path) (mem_text p st.loading) h) [
        | inl here ↦ ap (λ q. mem_text q st.merged) (same_text_eq p path here) ∙ fresh
        | inr there ↦ s.loading_fresh p there
      ];
      strict = s.strict;
    };
    within = refl;
    outside = out;
    same_mode = refl;
    grows = λ p h. h;
  }

  -- Fuel that `Fueled` grants for the paths being loaded: it lasts while new files are read.
  module _ (Unfueled : Type 0) (Fueled : ℕ → List Bytes → Type 0)
      (stops : (loading : List Bytes) → Fueled zero loading → Unfueled)
      (goes : (n : ℕ) (loading : List Bytes) (p content : Bytes)
        → settings.read_file p ≡ some content
        → mem_text p loading ≡ false
        → Fueled (suc n) loading
        → Fueled n (p ∷ loading)) where
    -- A file that is neither merged nor being loaded, where what it imports loads as it should.
    load_new-Post :
        (fuel : ℕ) (path content : Bytes) (st : LoadState)
        → ((p c : Bytes) (s : LoadState)
            → Sound parser settings s
            → settings.read_file p ≡ some c
            → Fueled fuel s.loading
            → Post Unfueled
                (Loaded parser settings p s)
                (load_file_into parser settings fuel p c s))
        → Sound parser settings st
        → settings.read_file path ≡ some content
        → Fueled (suc fuel) st.loading
        → mem_text path st.merged ≡ false
        → mem_text path st.loading ≡ false
        → Post Unfueled (Loaded parser settings path st) (
            load_tokens parser settings
              (load_file_into parser settings fuel)
              path
              (tokenize settings.long_max content)
              (record st { loading = path ∷ st.loading }))
    load_new-Post fuel path content st later s reads f fresh out =
        load_tokens-Post Unfueled (load_file_into parser settings fuel) path st
          (λ p c s' i r.
            later p c s' i.sound r
              (subst (Fueled fuel) (sym i.within) (goes fuel st.loading path content reads out f)))
          content (record st { loading = path ∷ st.loading }) reads
          (enter-Inside path st s fresh out) (tokenize settings.long_max content) refl

    pub load_file_into-Post :
        (fuel : ℕ) (path content : Bytes) (st : LoadState)
        → Sound parser settings st
        → settings.read_file path ≡ some content
        → Fueled fuel st.loading
        → Post Unfueled
            (Loaded parser settings path st)
            (load_file_into parser settings fuel path content st)
    unfolding load_file_into
    load_file_into-Post zero path content st s reads f = stops st.loading f
    load_file_into-Post (suc fuel) path content st s reads f =
        Post-if Unfueled (Loaded parser settings path st) (mem_text path st.merged) _ _
          (λ e. record {
            sound = s;
            extends = Extends-refl st;
            merges = e;
            lands = λ h. absurd (true-false (sym e ∙ h));
          })
          (λ e.
            Post-if Unfueled (Loaded parser settings path st) (mem_text path st.loading) _ _
              (λ e'. tt)
              (λ e'. load_new-Post fuel path content st (load_file_into-Post fuel) s reads f e e'))
