-- ===== src/Pipeline/Args.antt =====
-- examples/dplane_pipeline.c: the options of the program.
--
-- What `getopt` finds is a list of options with their arguments. The conversions of the C library are
-- parameters; a `double` is an element of a type of its own, which has a zero and a test `<= 0`.
use libchan.Base.{
  ℕ, Bool, true, false, ◌&&◌, Option, none, some, List, [], ◌∷◌, ◌==◌, u32, if◌then◌else◌, ℤ,
}
use libchan.Pipeline.Plane.{u64}
use libchan.Pipeline.Modes.{PollMode, poll_spin, is_block, parse_mode_opt}
use libchan.Pipeline.PathList.{Parsed, out_of_fuel, invalid, selected, parse_path_list}

-- The options of "l:c:t:i:m:Ph".
pub data Opt : Type 0 where
  opt_l opt_c opt_t opt_i opt_m : List ℕ → Opt
  opt_parallel opt_help opt_unknown : Opt

module _ (Double : Type 0) where
  -- `strtol`, `strtoul`, `strtoull` and `strtod`, and 0.0 with `<= 0`.
  pub record Conversions : Type 0 where
    pub strtol : List ℕ → ℤ × List ℕ
    pub strtoul : List ℕ → ℕ × List ℕ
    pub strtoull : List ℕ → ℕ
    pub strtod : List ℕ → Double
    pub zero_double : Double
    pub le_zero : Double → Bool

  -- `run_config_t`. `path_enabled` is also the field `enabled` of the accounts.
  pub record RunConfig : Type 0 where
    pub path_enabled : ℕ → Bool
    pub packets : ℕ
    pub duration_sec : Double
    pub interval_usec : ℕ
    pub parallel : Bool
    pub poll_mode : PollMode
    pub block_wait_usec : ℕ

-- 0, 1 and -1; or the loop over a list did not end.
pub data Args (C : Type 0) : Type 0 where
  accepted : C → Args C
  help refused endless : Args C

module _ {Double : Type 0} (lib : Conversions Double) where
  -- The cases of the options.
  abbrev pub take_list : RunConfig Double → Parsed → Args (RunConfig Double)
  take_list cfg out_of_fuel = endless
  take_list cfg invalid = refused
  take_list cfg (selected n e) =
      if n == 0 then refused else accepted (record cfg { path_enabled = e })

  abbrev pub or_else : Option ℕ → ℕ → ℕ
  or_else none d = d
  or_else (some n) d = n

  abbrev pub take_mode : RunConfig Double → Option (PollMode × Option ℕ) → Args (RunConfig Double)
  take_mode cfg none = refused
  take_mode cfg (some (m, w)) =
      let given = or_else w cfg.block_wait_usec in
      accepted (record cfg {
        poll_mode = m;
        block_wait_usec = if is_block m && given == 0 then 100 else given;
      })

  abbrev pub set_option : RunConfig Double → Opt → Args (RunConfig Double)
  set_option cfg (opt_l s) = take_list cfg (parse_path_list lib.strtol s)
  set_option cfg (opt_c s) =
      let n = u64 (lib.strtoull s) in
      if n == 0
      then refused
      else accepted (record cfg { packets = n; duration_sec = lib.zero_double })
  set_option cfg (opt_t s) =
      if lib.le_zero (lib.strtod s)
      then refused
      else accepted (record cfg { duration_sec = lib.strtod s })
  set_option cfg (opt_i s) = accepted (record cfg { interval_usec = u32 (lib.strtoul s).0 })
  set_option cfg opt_parallel = accepted (record cfg { parallel = true })
  set_option cfg (opt_m s) = take_mode cfg (parse_mode_opt lib.strtoul s)
  set_option cfg opt_help = help
  set_option cfg opt_unknown = refused

  abbrev pub and_then :
      Args (RunConfig Double)
      → (RunConfig Double → Args (RunConfig Double))
      → Args (RunConfig Double)
  and_then (accepted cfg) next = next cfg
  and_then r next = r

  abbrev pub option_loop : RunConfig Double → List Opt → Args (RunConfig Double)
  option_loop cfg [] = accepted cfg
  option_loop cfg (o ∷ os) = and_then (set_option cfg o) (λ c. option_loop c os)

  abbrev pub defaults : RunConfig Double
  defaults = record {
    path_enabled = λ i. true;
    packets = 1;
    duration_sec = lib.zero_double;
    interval_usec = 0;
    parallel = false;
    poll_mode = poll_spin;
    block_wait_usec = 0;
  }

  -- `parse_args`
  abbrev pub parse_args : List Opt → Args (RunConfig Double)
  parse_args opts = option_loop defaults opts
