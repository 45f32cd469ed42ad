-- ===== src/Config/Tests.antt =====
-- Runs of the model of src/ia_config.c, and its theorems at concrete inputs.
use ioarena.Base.{
  refl, Option, false, [], ℕ, ◌+◌, ◌*◌, ◌-◌, if◌then◌else◌, ◌≡◌, Bool, none, some, List, ◌∷◌, ◌++◌,
}
use ioarena.Base.Text.{codes, same_nocase}
use ioarena.Bench.{Benchmark}
use ioarena.Config.Names.{ia_benchmark}
use ioarena.Config.Parse.{
  IaConfig, ready, mark, select, select_all, tokens, finish_parse, ia_configinit, ia_configparse,
  Opt, opt_D, opt_k, opt_B,
}
use ioarena.Config.Valid.{IsValid, ia_configparse-IsValid}
use ioarena.Config.OptionBool.{comma}

abbrev digits : ℕ → List ℕ → ℕ
digits n [] = n
digits n (c ∷ cs) = digits (n * 10 + (c - 48)) cs

-- "coalesce=yes,lifo=on"
abbrev two_options : List ℕ
two_options = codes "coalesce" ++ 61 ∷ (codes "yes" ++ comma ∷ codes "lifo=on")

-- A driver named "lmdb" without options, and a decimal reader.
abbrev one_driver : List ℕ → Option Bool
one_driver name = if same_nocase name (codes "lmdb") then some false else none

abbrev decimal : List ℕ → ℕ
decimal s = digits 0 s

abbrev settings : IaConfig
settings = record ia_configinit {
  driver = some (codes "lmdb");
  takes_options = false;
  ksize = 24;
  benchmark = codes "crud, get";
  benchmark_list = mark (mark (λ b. false) Benchmark.ia_crud) Benchmark.ia_get;
}

abbrev command_line : List Opt
command_line = opt_D (codes "lmdb") ∷ opt_k (codes "24") ∷ opt_B (codes "crud, get") ∷ []

settings-read :
    ia_configparse one_driver decimal decimal ia_configinit command_line ≡ ready settings
unfolding ia_configparse finish_parse select_all select tokens ia_benchmark ia_configinit
settings-read = refl

ia_configparse-IsValid_example : IsValid settings
ia_configparse-IsValid_example =
    ia_configparse-IsValid one_driver decimal decimal ia_configinit settings command_line
      settings-read
