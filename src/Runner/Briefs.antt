-- ===== src/Runner/Briefs.antt =====
-- The orchestrator's view of the personas, against their rows after the logins.
use security_tool.Prelude.{
  Bool, true, false, List, [], ◌∷◌, map, Text, text_eq, text_beq, text_beq_iff, filter, Distinct,
  All, if◌then◌else◌, ◌≡◌, refl, ap, sym, ◌∙◌, Bool-cases, inl, inr,
}
use security_tool.Crypto.{Bytes}
use security_tool.Engine.{HttpEngine}
use security_tool.Personas.{Persona}
use security_tool.Runner.{
  Facts, Established, is_empty, configured, available_personas, crawled_as, logs_in,
}
use security_tool.Runner.Logins.{PersonaRow, Clients}
use security_tool.Runner.Kept.{id_of, ids, all_differ}
use security_tool.Runner.Sessions.{logged, expected}
use security_tool.Runner.Crawls.{is_available}
use security_tool.Runner.Details.{has_recipe, configured_personas, established, brief}

abbrev pub persona_of : PersonaRow → Persona
persona_of row = row.persona

module _ (c : Clients) where
  abbrev brief_row : PersonaRow → security_tool.Runner.Persona
  brief_row row = brief c.str row.persona

  configured-brief :
      (rows : List PersonaRow)
      → filter (λ p. p.has_login_recipe) (map brief_row rows)
        ≡ map brief_row (configured_personas rows)
  unfolding filter configured_personas
  configured-brief [] = refl
  configured-brief (row ∷ rows) = by_test (configured-brief rows) (has_recipe row.persona)
    where
      by_test :
          filter (λ p. p.has_login_recipe) (map brief_row rows)
            ≡ map brief_row (configured_personas rows)
          → (b : Bool)
          → (if b
              then brief_row row ∷ filter (λ p. p.has_login_recipe) (map brief_row rows)
              else filter (λ p. p.has_login_recipe) (map brief_row rows))
            ≡ map brief_row (if b then row ∷ configured_personas rows else configured_personas rows)
      by_test ih true = ap (λ l. brief_row row ∷ l) ih
      by_test ih false = ih

  -- Rows of the same personas.
  personas_of :
      (f : PersonaRow → Persona × Bool) (rows : List PersonaRow)
      → ((row : PersonaRow) → (f row).0 ≡ row.persona)
      → map (λ (p : Persona × Bool). p.0) (map f rows) ≡ map persona_of rows
  personas_of f [] h = refl
  personas_of f (row ∷ rows) h = rw (h row) (ap (λ l. row.persona ∷ l) (personas_of f rows h))

  pub same_personas :
      (rows rows' : List PersonaRow) (engine : HttpEngine) (key : Bytes) (url : Text)
      → map (logged c) rows' ≡ map (expected c engine key url) rows
      → map persona_of rows' ≡ map persona_of rows
  same_personas rows rows' engine key url e =
      sym (personas_of (logged c) rows' (λ row. refl))
      ∙ ap (map (λ (p : Persona × Bool). p.0)) e
      ∙ personas_of (expected c engine key url) rows (λ row. refl)

  map-brief :
      (rows : List PersonaRow) → map brief_row rows ≡ map (brief c.str) (map persona_of rows)
  map-brief [] = refl
  map-brief (row ∷ rows) = ap (λ l. brief_row row ∷ l) (map-brief rows)

  -- The briefs of rows of the same personas, those with a recipe.
  pub same_briefs :
      (all rows : List PersonaRow)
      → map persona_of rows ≡ map persona_of (configured_personas all)
      → filter (λ p. p.has_login_recipe) (map brief_row all) ≡ map brief_row rows
  same_briefs all rows e =
      configured-brief all
      ∙ map-brief (configured_personas all)
      ∙ sym (map-brief rows ∙ ap (map (brief c.str)) e)

  abbrev IsMarked : List PersonaRow → PersonaRow → Type 0
  IsMarked rows row = (established c.str (id_of c row) rows).available ≡ row.is_available

  IsMarked-cons :
      (first : PersonaRow) (rows later : List PersonaRow)
      → All (λ row. text_beq (id_of c first) (id_of c row) ≡ false) later
      → All (IsMarked rows) later
      → All (IsMarked (first ∷ rows)) later
  unfolding established
  IsMarked-cons first rows [] h k = tt
  IsMarked-cons first rows (row ∷ later) h k = (rw h.0 k.0, IsMarked-cons first rows later h.1 k.1)

  pub all-IsMarked : (rows : List PersonaRow) → Distinct (ids c rows) → All (IsMarked rows) rows
  unfolding established
  all-IsMarked [] d = tt
  all-IsMarked (row ∷ rows) d = (
    rw ((text_beq_iff (id_of c row) (id_of c row)).1 refl) refl,
    IsMarked-cons row rows rows (all_differ c (id_of c row) rows d.0) (all-IsMarked rows d.1),
  )

  pub available-marked :
      (all rows : List PersonaRow)
      → All (IsMarked all) rows
      → map (λ p. p.id) (filter (λ p. (established c.str p.id all).available) (map brief_row rows))
        ≡ map (id_of c) (filter is_available rows)
  unfolding filter
  available-marked all [] h = refl
  available-marked all (row ∷ rows) h = elim (Bool-cases row.is_available) [
    | inl e ↦ rw (h.0, e, available-marked all rows h.1) refl
    | inr e ↦ rw (h.0, e, available-marked all rows h.1) refl
  ]
