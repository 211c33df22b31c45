-- ===== src/Benchmarks/Layouts.antt =====
-- `AOS` and `SOA` of src/benchmarks/SOA_AOS/structures.hpp, over any number type: `add_one` is its
-- `x += 1`, `zero_value` and `one_value` its initial values.
use benchmark_fun.Common.{ℕ, zero, suc, ◌≡◌, refl, ap, ◌∙◌, List, [], ◌∷◌, map, replicate}

module _ (T : Type 0) where
  pub record Entity : Type 0 where
    pub attack : T
    pub defense : T
    pub health : T
    pub x : T
    pub y : T
    pub z : T

  pub record Soa : Type 0 where
    pub attacks : List T
    pub defenses : List T
    pub healths : List T
    pub x_locs : List T
    pub y_locs : List T
    pub z_locs : List T

module _ {T : Type 0} where
  pub new_aos : T → T → ℕ → List (Entity T)
  new_aos zero_value one_value num_entities = replicate num_entities (record {
    attack = one_value;
    defense = one_value;
    health = one_value;
    x = zero_value;
    y = zero_value;
    z = zero_value;
  })

  pub new_soa : T → T → ℕ → Soa T
  new_soa zero_value one_value num_entities = record {
    attacks = replicate num_entities one_value;
    defenses = replicate num_entities one_value;
    healths = replicate num_entities one_value;
    x_locs = replicate num_entities zero_value;
    y_locs = replicate num_entities zero_value;
    z_locs = replicate num_entities zero_value;
  }

  -- The loop over the entities, and the one over `x_locs`.
  pub move_all : (T → T) → List (Entity T) → List (Entity T)
  move_all add_one [] = []
  move_all add_one (e ∷ entities) = record e { x = add_one e.x } ∷ move_all add_one entities

  pub move_locs : (T → T) → List T → List T
  move_locs add_one [] = []
  move_locs add_one (x ∷ x_locs) = add_one x ∷ move_locs add_one x_locs

  pub run_aos : (T → T) → ℕ → List (Entity T) → List (Entity T)
  unfolding move_all
  run_aos add_one zero entities = entities
  run_aos add_one (suc iterations) entities = run_aos add_one iterations (move_all add_one entities)

  pub run_soa : (T → T) → ℕ → Soa T → Soa T
  unfolding move_locs
  run_soa add_one zero s = s
  run_soa add_one (suc iterations) s =
      run_soa add_one iterations (record s { x_locs = move_locs add_one s.x_locs })

  -- The arrays of an array of structures.
  abbrev pub columns : List (Entity T) → Soa T
  columns entities = record {
    attacks = map (λ e. e.attack) entities;
    defenses = map (λ e. e.defense) entities;
    healths = map (λ e. e.health) entities;
    x_locs = map (λ e. e.x) entities;
    y_locs = map (λ e. e.y) entities;
    z_locs = map (λ e. e.z) entities;
  }

  columns-move_all :
      (add_one : T → T) (entities : List (Entity T))
      → columns (move_all add_one entities)
        ≡ record (columns entities) { x_locs = move_locs add_one (columns entities).x_locs }
  unfolding move_all move_locs
  columns-move_all add_one [] = refl
  columns-move_all add_one (e ∷ entities) =
      ap
        (λ s. record {
          attacks = e.attack ∷ s.attacks;
          defenses = e.defense ∷ s.defenses;
          healths = e.health ∷ s.healths;
          x_locs = add_one e.x ∷ s.x_locs;
          y_locs = e.y ∷ s.y_locs;
          z_locs = e.z ∷ s.z_locs;
        })
        (columns-move_all add_one entities)

  columns-run_aos :
      (add_one : T → T) (iterations : ℕ) (entities : List (Entity T))
      → columns (run_aos add_one iterations entities)
        ≡ run_soa add_one iterations (columns entities)
  unfolding run_aos run_soa
  columns-run_aos add_one zero entities = refl
  columns-run_aos add_one (suc iterations) entities =
      columns-run_aos add_one iterations (move_all add_one entities)
      ∙ ap (run_soa add_one iterations) (columns-move_all add_one entities)

  columns-new_aos :
      (zero_value one_value : T) (num_entities : ℕ)
      → columns (new_aos zero_value one_value num_entities)
        ≡ new_soa zero_value one_value num_entities
  unfolding new_aos new_soa
  columns-new_aos zero_value one_value zero = refl
  columns-new_aos zero_value one_value (suc num_entities) =
      ap
        (λ s. record {
          attacks = one_value ∷ s.attacks;
          defenses = one_value ∷ s.defenses;
          healths = one_value ∷ s.healths;
          x_locs = zero_value ∷ s.x_locs;
          y_locs = zero_value ∷ s.y_locs;
          z_locs = zero_value ∷ s.z_locs;
        })
        (columns-new_aos zero_value one_value num_entities)

  -- From their constructors, and for any number of iterations, the two layouts hold the same
  -- values: the array of structures, column by column, is the structure of arrays.
  layouts_agree :
      (add_one : T → T) (zero_value one_value : T) (num_entities iterations : ℕ)
      → columns (run_aos add_one iterations (new_aos zero_value one_value num_entities))
        ≡ run_soa add_one iterations (new_soa zero_value one_value num_entities)
  layouts_agree add_one zero_value one_value num_entities iterations =
      columns-run_aos add_one iterations (new_aos zero_value one_value num_entities)
      ∙ ap (run_soa add_one iterations) (columns-new_aos zero_value one_value num_entities)
