-- ===== src/Echo/Args.antt =====
-- echo/args.c: the options of the example program. What getopt_long(3) returns is given as a list,
-- one entry for each call but the last, which is -1: the option's character and `optarg`. A text is
-- its characters without the final 0; strtoul(3) is a parameter.
pub mod Laws
use swnet_linux.Base.{
  ℕ, suc, ◌%◌, ◌^◌, ◌+◌, List, [], ◌∷◌, Option, none, some, Bool, true, false, ◌==◌, ◌||◌, ◌&&◌,
  leb, if◌then◌else◌, length,
}
use swnet_linux.Base.Int.{ℤ, pos, neg}
use swnet_linux.Base.Run.{Run, fault, waiting, done, ◌>>=◌}

-- SESS_TYPE_SERVER and SESS_TYPE_CLIENT
abbrev pub sess_type_server : ℕ
sess_type_server = b's'

abbrev pub sess_type_client : ℕ
sess_type_client = b'c'

-- sizeof(__startup_parameters.host)
abbrev pub host_size : ℕ
host_size = 128

-- __startup_parameters
pub record Startup : Type 0 where
  pub type : ℕ
  pub host : List ℕ
  pub port : ℕ

-- "0.0.0.0"
abbrev pub any_host : List ℕ
any_host = b'0' ∷ b'.' ∷ b'0' ∷ b'.' ∷ b'0' ∷ b'.' ∷ b'0' ∷ []

abbrev pub startup_default : Startup
startup_default = record { type = sess_type_server; host = any_host; port = 10256 }

-- What is printed.
pub data Shown : Type 0 where
  usage author question nought : Shown

abbrev pub Opt : Type 0
Opt = ℕ × Option (List ℕ)

-- strcpy into the field `host`: a text without room for it and its final 0 runs over the end.
unfoldable pub copy_host : Startup → Option (List ℕ) → Run Startup
copy_host s none = done s
copy_host s (some arg) =
    if leb (length arg + 1) host_size then done (record s { host = arg }) else fault

-- strcasecmp(host, "0.0.0.0") == 0: none of the characters has another case.
abbrev pub same_text : List ℕ → List ℕ → Bool
same_text [] [] = true
same_text [] (y ∷ ys) = false
same_text (x ∷ xs) [] = false
same_text (x ∷ xs) (y ∷ ys) = (x == y) && same_text xs ys

-- What one option does: the parameters and going on, or what is printed and -1.
pub data OptStep : Type 0 where
  go_on : Startup → OptStep
  give_up : List Shown → OptStep

module _ (strtoul : List ℕ → ℕ) where
  -- strtoul(3) of a null pointer is undefined.
  abbrev pub set_port : Startup → Option (List ℕ) → Run OptStep
  set_port s none = fault
  set_port s (some arg) = done (go_on (record s { port = strtoul arg % 2 ^ 16 }))

  -- The switch of check_args.
  unfoldable pub on_opt : Startup → Opt → Run OptStep
  unfolding copy_host
  on_opt s (opt, optarg) =
      if (opt == b's') || (opt == b'c')
      then copy_host s optarg >>= (λ s'. done (go_on (record s' { type = opt })))
      else if opt == b'v'
      then done (give_up (author ∷ []))
      else if opt == b'h'
      then done (give_up (usage ∷ []))
      else if opt == b'p'
      then set_port s optarg
      else if opt == b'?'
      then done (give_up (question ∷ nought ∷ usage ∷ []))
      else if opt == 0
      then done (give_up (nought ∷ usage ∷ []))
      else done (give_up (usage ∷ []))

  -- The loop of check_args, and the test behind it.
  unfoldable pub check_opts : Startup → List Opt → Run (ℤ × Startup × List Shown)
  unfolding on_opt
  check_opts s [] =
      if (s.type == sess_type_client) && same_text s.host any_host
      then done (neg 1, s, usage ∷ [])
      else done (pos 0, s, [])
  check_opts s (o ∷ os) = elim (on_opt s o) [
    | fault ↦ fault
    | waiting ↦ waiting
    | done (go_on s') ↦ check_opts s' os
    | done (give_up shown) ↦ done (neg 1, s, shown)
  ]

  unfoldable pub check_args : List Opt → Run (ℤ × Startup × List Shown)
  unfolding check_opts
  check_args os = check_opts startup_default os

-- gettype, gethost and getport
abbrev pub gettype : Startup → ℕ
gettype s = s.type

abbrev pub gethost : Startup → List ℕ
gethost s = s.host

abbrev pub getport : Startup → ℕ
getport s = s.port
