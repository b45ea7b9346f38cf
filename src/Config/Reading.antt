-- ===== src/Config/Reading.antt =====
-- config_parser/fncsconfig.cpp: the results of reading a configuration.
use fncs.Base.{
  ℕ, ◌≡◌, refl, Bool, true, false, Result, ok, throws, assert_fails, undefined, ◌>>=◌, map_result,
  Name, name_key, codes, ◌==◌, if◌then◌else◌,
}
use fncs.Time.{
  TimeMetric, seconds, milliseconds, nanoseconds, unknown, infinity, convert_to_framework_time,
}
use fncs.Speculation.{
  Strategy, constant, increasing, infinite, infinite_with_kill_last, new_speculation, start_with,
}
use fncs.Config.{
  Json, Config, required, json_to_time_metric, read_sim_type, read_one_time_step, extract_params,
}
use fncs.Config.Factories.{create_timed}

-- The call comes back with a value that satisfies the postcondition, or it throws.
abbrev pub Sound : {A : Type 0} → (A → Type 0) → Result A → Type 0
Sound P (ok a) = P a
Sound P (throws e) = Unit {0}
Sound P assert_fails = ⊥
Sound P undefined = ⊥

-- Any value will do.
abbrev pub Some : {A : Type 0} → A → Type 0
Some a = Unit {0}

pub Sound->>= :
    {A B : Type 0} (Q : A → Type 0) (P : B → Type 0) (m : Result A) (f : A → Result B)
    → Sound Q m
    → ((a : A) → Q a → Sound P (f a))
    → Sound P (m >>= f)
Sound->>= Q P (ok a) f q h = h a q
Sound->>= Q P (throws e) f q h = tt
Sound->>= Q P assert_fails f q h = elim q [ ]
Sound->>= Q P undefined f q h = elim q [ ]

pub Sound-if :
    {A : Type 0} (P : A → Type 0) (c : Bool) (x y : Result A)
    → (c ≡ true → Sound P x)
    → (c ≡ false → Sound P y)
    → Sound P (if c then x else y)
Sound-if P true x y h k = h refl
Sound-if P false x y h k = k refl

pub Sound-map_result :
    {A B : Type 0} (Q : A → Type 0) (P : B → Type 0) (f : A → B) (m : Result A)
    → Sound Q m
    → ((a : A) → Q a → P (f a))
    → Sound P (map_result f m)
Sound-map_result Q P f (ok a) q h = h a q
Sound-map_result Q P f (throws e) q h = tt
Sound-map_result Q P f assert_fails q h = elim q [ ]
Sound-map_result Q P f undefined q h = elim q [ ]

-- What the value satisfies, with where it comes from
pub Sound-ok :
    {A : Type 0} (P : A → Type 0) (m : Result A) → Sound P m → Sound (λ a. P a × (m ≡ ok a)) m
Sound-ok P (ok a) h = (h, refl)
Sound-ok P (throws e) h = tt
Sound-ok P assert_fails h = h
Sound-ok P undefined h = h

-- The calls of jsoncpp come back or throw.
pub record Throws {J : Type 0} (js : Json J) : Type 0 where
  pub members : (name : Name) (j : J) → Sound Some (js.member name j)
  pub strings : (j : J) → Sound Some (js.as_string j)
  pub words : (j : J) → Sound Some (js.as_uint64 j)
  pub integers : (j : J) → Sound Some (js.as_int j)

abbrev pub IsKnown : TimeMetric → Type 0
IsKnown unknown = ⊥
IsKnown other = Unit {0}

pub convert-Sound :
    (m : TimeMetric) (t : ℕ) → IsKnown m → Sound Some (convert_to_framework_time m t)
unfolding convert_to_framework_time
convert-Sound seconds t h = tt
convert-Sound milliseconds t h = tt
convert-Sound nanoseconds t h = tt
convert-Sound unknown t h = elim h [ ]

start-Sound :
    (strategy : Strategy) (m : TimeMetric) (t : ℕ)
    → IsKnown m
    → Sound Some (start_with strategy m t)
unfolding start_with
start-Sound strategy m t h =
    Sound->>= Some Some (convert_to_framework_time m t) _ (convert-Sound m t h) (λ d _. tt)

pub speculation-Sound :
    (strategy : Strategy) (m : TimeMetric) (t : ℕ)
    → IsKnown m
    → Sound Some (new_speculation strategy m t)
unfolding new_speculation
speculation-Sound constant m t h = start-Sound constant m t h
speculation-Sound increasing m t h = start-Sound increasing m t h
speculation-Sound infinite m t h = start-Sound infinite nanoseconds infinity tt
speculation-Sound infinite_with_kill_last m t h =
    start-Sound infinite_with_kill_last nanoseconds infinity tt

module _ {J : Type 0} (js : Json J) (th : Throws js) where
  pub required-Sound : (name : Name) (root : J) → Sound Some (required js name root)
  required-Sound name root =
      Sound->>= Some Some (js.member name root) _ (th.members name root)
        (λ j _. Sound-if Some (js.is_null j) _ _ (λ _. tt) (λ _. tt))

  metric-Sound : (j : J) → Sound IsKnown (json_to_time_metric js j)
  unfolding json_to_time_metric
  metric-Sound j =
      Sound-if IsKnown (js.is_null j) _ _ (λ _. tt)
        (λ _. Sound->>= Some IsKnown (js.as_string j) _ (th.strings j) (λ name _.
          Sound-if IsKnown (name == codes "seconds") _ _ (λ _. tt)
            (λ _.
              Sound-if IsKnown (name == codes "milliseconds") _ _ (λ _. tt)
                (λ _. Sound-if IsKnown (name == codes "nanoseconds") _ _ (λ _. tt) (λ _. tt)))))

  sim_type-Sound : (root : J) → Sound Some (read_sim_type js root)
  unfolding read_sim_type
  sim_type-Sound root =
      Sound->>= Some Some (required js (codes "simulator_type") root) _
        (required-Sound (codes "simulator_type") root)
        (λ j _. Sound->>= Some Some (js.as_string j) _ (th.strings j) (λ name _.
          Sound-if Some (name == codes "power_grid") _ _ (λ _. tt)
            (λ _. Sound-if Some (name == codes "communication_network") _ _ (λ _. tt) (λ _. tt))))

  step-Sound : (root : J) → Sound Some (read_one_time_step js root)
  unfolding read_one_time_step
  step-Sound root =
      Sound->>= Some Some (js.member (codes "one_time_step") root) _
        (th.members (codes "one_time_step") root)
        (λ j _. Sound-if Some (js.is_null j) _ _ (λ _. tt) (λ _. th.words j))

  -- Every configuration that is read has a known metric.
  pub extract-Sound : (root : J) → Sound (λ c. IsKnown c.sim_metric) (extract_params js root)
  unfolding extract_params
  extract-Sound root =
      let P : Config J → Type 0 = λ c. IsKnown c.sim_metric in
      Sound->>= Some P (js.member (codes "interface") root) _ (th.members (codes "interface") root)
        (λ interface _.
          Sound->>= Some P (js.member (codes "broker") root) _ (th.members (codes "broker") root)
            (λ broker _.
              Sound->>= Some P (read_sim_type js root) _ (sim_type-Sound root) (λ sim_type _.
                Sound->>= Some P (js.member (codes "synchronization_algorithm") root) _
                  (th.members (codes "synchronization_algorithm") root)
                  (λ algorithm _.
                    Sound->>= Some P (js.member (codes "sync_params") root) _
                      (th.members (codes "sync_params") root)
                      (λ params _.
                        Sound->>= Some P (required js (codes "simulator_time_metric") root) _
                          (required-Sound (codes "simulator_time_metric") root)
                          (λ metric _.
                            Sound->>= IsKnown P (json_to_time_metric js metric) _
                              (metric-Sound metric)
                              (λ m known.
                                Sound->>= Some P (read_one_time_step js root) _ (step-Sound root)
                                  (λ step _.
                                    Sound->>= Some P (required js (codes "packet_lost_period") root)
                                      _ (required-Sound (codes "packet_lost_period") root)
                                      (λ lost _.
                                        Sound->>= Some P (js.as_uint64 lost) _ (th.words lost)
                                          (λ period _. known))))))))))

  pub timed-Sound :
      (strategy : Strategy) (name : Name) (param : J)
      → Sound Some (create_timed js strategy name param)
  unfolding create_timed
  timed-Sound strategy name param =
      Sound->>= Some Some (js.member (codes "metric") param) _ (th.members (codes "metric") param)
        (λ j _. Sound->>= IsKnown Some (json_to_time_metric js j) _ (metric-Sound j) (λ m known.
          Sound->>= Some Some (js.member name param) _ (th.members name param) (λ j' _.
            Sound->>= Some Some (js.as_uint64 j') _ (th.words j')
              (λ t _. speculation-Sound strategy m t known))))
