-- ===== src/Pipeline/Usable.antt =====
-- The options that are accepted.
use libchan.Base.{
  ℕ, ◌≤◌, Bool, true, false, ◌&&◌, Option, none, some, List, [], ◌∷◌, ◌==◌, length, if◌then◌else◌,
  if_true, if_false, Bool-cases, ◌≡◌, refl, sym, subst, ◌⊎◌, inl, inr, arith,
}
use libchan.Pipeline.Plane.{u64}
use libchan.Pipeline.Modes.{PollMode, is_block, parse_mode_opt}
use libchan.Pipeline.PathList.{
  Parsed, out_of_fuel, invalid, selected, parse_path_list, count, Counted, parse_path_list-Counted,
}
use libchan.Pipeline.Args.{
  Opt, opt_l, opt_c, opt_t, opt_i, opt_m, opt_parallel, opt_help, opt_unknown, Conversions,
  RunConfig, Args, accepted, help, refused, endless, take_list, or_else, take_mode, set_option,
  and_then, option_loop, defaults, parse_args,
}

positive : (n : ℕ) → (n == 0) ≡ false → 1 ≤ n
positive n z = ground arith

module _ {Double : Type 0} (lib : Conversions Double) where
  -- What `main` relies on.
  pub record IsUsable (cfg : RunConfig Double) : Type 0 where
    pub some_path : 1 ≤ count cfg.path_enabled
    pub some_packet : 1 ≤ cfg.packets
    pub waits : (is_block cfg.poll_mode ≡ false) ⊎ (1 ≤ cfg.block_wait_usec)
    pub timed : (cfg.duration_sec ≡ lib.zero_double) ⊎ (lib.le_zero cfg.duration_sec ≡ false)

  abbrev pub Usable : Args (RunConfig Double) → Type 0
  Usable (accepted cfg) = IsUsable cfg
  Usable help = Unit
  Usable refused = Unit
  Usable endless = ⊥

  take_list-Usable :
      (cfg : RunConfig Double) (r : Parsed)
      → IsUsable cfg
      → Counted r
      → Usable (take_list lib cfg r)
  take_list-Usable cfg out_of_fuel h c = elim c [ ]
  take_list-Usable cfg invalid h c = tt
  take_list-Usable cfg (selected n e) h c = elim (Bool-cases (n == 0)) [
    | inl z ↦ subst Usable (sym (if_true _ _ z)) tt
    | inr z ↦ subst Usable (sym (if_false _ _ z)) (record {
      some_path = subst (λ (t : ℕ). 1 ≤ t) c (positive n z);
      some_packet = h.some_packet;
      waits = h.waits;
      timed = h.timed;
    })
  ]

  take_mode-Usable :
      (cfg : RunConfig Double) (r : Option (PollMode × Option ℕ))
      → IsUsable cfg
      → Usable (take_mode lib cfg r)
  take_mode-Usable cfg none h = tt
  take_mode-Usable cfg (some (m, w)) h = record {
    some_path = h.some_path;
    some_packet = h.some_packet;
    waits = filled (is_block m) (or_else lib w cfg.block_wait_usec);
    timed = h.timed;
  }
    where
      filled : (b : Bool) (n : ℕ) → (b ≡ false) ⊎ (1 ≤ (if b && n == 0 then 100 else n))
      filled false n = inl refl
      filled true n = inr (ground arith)

  set_option-Usable :
      (cfg : RunConfig Double) (o : Opt)
      → ((t : List ℕ) → length (lib.strtol t).1 ≤ length t)
      → IsUsable cfg
      → Usable (set_option lib cfg o)
  set_option-Usable cfg (opt_l s) within h =
      take_list-Usable cfg (parse_path_list lib.strtol s) h
        (parse_path_list-Counted lib.strtol s within)
  set_option-Usable cfg (opt_c s) within h = elim (Bool-cases (u64 (lib.strtoull s) == 0)) [
    | inl z ↦ subst Usable (sym (if_true _ _ z)) tt
    | inr z ↦ subst Usable (sym (if_false _ _ z)) (record {
      some_path = h.some_path;
      some_packet = positive (u64 (lib.strtoull s)) z;
      waits = h.waits;
      timed = inl refl;
    })
  ]
  set_option-Usable cfg (opt_t s) within h = elim (Bool-cases (lib.le_zero (lib.strtod s))) [
    | inl z ↦ subst Usable (sym (if_true _ _ z)) tt
    | inr z ↦ subst Usable (sym (if_false _ _ z)) (record {
      some_path = h.some_path;
      some_packet = h.some_packet;
      waits = h.waits;
      timed = inr z;
    })
  ]
  set_option-Usable cfg (opt_i s) within h = record {
    some_path = h.some_path;
    some_packet = h.some_packet;
    waits = h.waits;
    timed = h.timed;
  }
  set_option-Usable cfg opt_parallel within h = record {
    some_path = h.some_path;
    some_packet = h.some_packet;
    waits = h.waits;
    timed = h.timed;
  }
  set_option-Usable cfg (opt_m s) within h = take_mode-Usable cfg (parse_mode_opt lib.strtoul s) h
  set_option-Usable cfg opt_help within h = tt
  set_option-Usable cfg opt_unknown within h = tt

  and_then-Usable :
      (r : Args (RunConfig Double)) (next : RunConfig Double → Args (RunConfig Double))
      → Usable r
      → ((c : RunConfig Double) → IsUsable c → Usable (next c))
      → Usable (and_then lib r next)
  and_then-Usable (accepted cfg) next u f = f cfg u
  and_then-Usable endless next u f = elim u [ ]
  and_then-Usable help next u f = tt
  and_then-Usable refused next u f = tt

  option_loop-Usable :
      (os : List Opt) (cfg : RunConfig Double)
      → ((t : List ℕ) → length (lib.strtol t).1 ≤ length t)
      → IsUsable cfg
      → Usable (option_loop lib cfg os)
  option_loop-Usable [] cfg within h = h
  option_loop-Usable (o ∷ os) cfg within h =
      and_then-Usable (set_option lib cfg o) (λ c. option_loop lib c os)
        (set_option-Usable cfg o within h) (λ c u. option_loop-Usable os c within u)

  -- Whatever options are given, as long as what `strtol` leaves of a string is no longer than the
  -- string: the parsing ends, and a configuration that it accepts has a path that is enabled, at least
  -- one packet to send, in the block mode a wait that is not 0, and a duration that is 0 or for
  -- which `<= 0` is false.
  pub parse_args-Usable :
      (os : List Opt)
      → ((t : List ℕ) → length (lib.strtol t).1 ≤ length t)
      → Usable (parse_args lib os)
  parse_args-Usable os within = option_loop-Usable os (defaults lib) within (record {
    some_path = omega arith;
    some_packet = omega arith;
    waits = inl refl;
    timed = inl refl;
  })
