-- ===== src/Echo/Args/Laws.antt =====
-- What the options of the example program come to.
use swnet_linux.Base.{
  ℕ, ◌%◌, ◌^◌, ◌+◌, ◌≤◌, ◌<◌, ◌≡◌, refl, ap, ◌∙◌, List, [], ◌∷◌, ◌++◌, map, Option, none, some,
  ◌==◌, ◌&&◌, if◌then◌else◌, length, le→leb, arith,
}
use swnet_linux.Base.Int.{ℤ, pos, neg}
use swnet_linux.Base.Run.{Run, fault, done, ◌>>=◌}
use swnet_linux.Echo.Args.{
  Startup, Shown, usage, Opt, go_on, host_size, copy_host, on_opt, check_opts, check_args,
  startup_default, sess_type_client, same_text, any_host,
}

-- An option that sets something: the kind of the program with a host or without one, or the port.
pub data Setting : Type 0 where
  server client : Option (List ℕ) → Setting
  port : List ℕ → Setting

abbrev pub opt_of : Setting → Opt
opt_of (server host) = (b's', host)
opt_of (client host) = (b'c', host)
opt_of (port text) = (b'p', some text)

abbrev pub kind_of : Setting → Option ℕ
kind_of (server host) = some b's'
kind_of (client host) = some b'c'
kind_of (port text) = none

abbrev pub host_of : Setting → Option (List ℕ)
host_of (server host) = host
host_of (client host) = host
host_of (port text) = none

abbrev pub port_of : Setting → Option (List ℕ)
port_of (server host) = none
port_of (client host) = none
port_of (port text) = some text

-- What the last of the settings says that says something.
module _ {A : Type 0} (f : Setting → Option A) where
  abbrev pub last_of : A → List Setting → A
  last_of a [] = a
  last_of a (x ∷ xs) = last_of (elim (f x) [ none ↦ a | some b ↦ b ]) xs

-- A host has room with its final 0.
abbrev pub FitsHost : Option (List ℕ) → Type 0
FitsHost none = Unit {0}
FitsHost (some host) = length host < host_size

abbrev pub AllFitHost : List Setting → Type 0
AllFitHost [] = Unit {0}
AllFitHost (x ∷ xs) = FitsHost (host_of x) × AllFitHost xs

module _ (strtoul : List ℕ → ℕ) where
  abbrev pub port_number : Setting → Option ℕ
  port_number x = elim (port_of x) [ none ↦ none | some text ↦ some (strtoul text % 2 ^ 16) ]

  -- The parameters that a list of settings comes to.
  abbrev pub chosen : Startup → List Setting → Startup
  chosen s xs = record {
    type = last_of kind_of s.type xs;
    host = last_of host_of s.host xs;
    port = last_of port_number s.port xs;
  }

  -- The answer for parameters: a client wants a host.
  abbrev pub answer : Startup → Run (ℤ × Startup × List Shown)
  answer s =
      if (s.type == sess_type_client) && same_text s.host any_host
      then done (neg 1, s, usage ∷ [])
      else done (pos 0, s, [])

  check_step :
      (s s' : Startup) (o : Opt) (os : List Opt)
      → on_opt strtoul s o ≡ done (go_on s')
      → check_opts strtoul s (o ∷ os) ≡ check_opts strtoul s' os
  unfolding check_opts
  check_step s s' o os e = rw (e, check_opts) refl

  copied :
      (s : Startup) (host : List ℕ)
      → length host < host_size
      → copy_host s (some host) ≡ done (record s { host = host })
  unfolding copy_host
  copied s host h = rw (le→leb (length host + 1) host_size (omega arith)) refl

  settings_step :
      (s : Startup) (x : Setting) (os : List Opt)
      → FitsHost (host_of x)
      → check_opts strtoul s (opt_of x ∷ os) ≡ check_opts strtoul (chosen s (x ∷ [])) os
  unfolding on_opt copy_host
  settings_step s (server none) os h = check_step s _ _ os refl
  settings_step s (server (some host)) os h =
      check_step s (record s { host = host; type = b's' }) _ os
        (ap (λ r. r >>= (λ s'. done (go_on (record s' { type = b's' })))) (copied s host h))
  settings_step s (client none) os h = check_step s _ _ os refl
  settings_step s (client (some host)) os h =
      check_step s (record s { host = host; type = b'c' }) _ os
        (ap (λ r. r >>= (λ s'. done (go_on (record s' { type = b'c' })))) (copied s host h))
  settings_step s (port text) os h = check_step s _ _ os refl

  check_settings :
      (s : Startup) (xs : List Setting)
      → AllFitHost xs
      → check_opts strtoul s (map opt_of xs) ≡ answer (chosen s xs)
  unfolding check_opts
  check_settings s [] a = refl
  check_settings s (x ∷ xs) (h, a) =
      settings_step s x (map opt_of xs) h ∙ check_settings (chosen s (x ∷ [])) xs a

  -- Where every host has room in its field, check_args takes for each of the three parameters what
  -- the last option says of it, or its default, the port as an uint16_t; it returns 0, but for a
  -- client that is left with the host 0.0.0.0: -1, with the usage shown.
  pub check_args-chosen :
      (xs : List Setting)
      → AllFitHost xs
      → check_args strtoul (map opt_of xs) ≡ answer (chosen startup_default xs)
  unfolding check_args
  check_args-chosen xs a = check_settings startup_default xs a

  overflow_step :
      (s : Startup) (x : Setting) (host : List ℕ) (os : List Opt)
      → host_of x ≡ some host
      → host_size ≤ length host
      → check_opts strtoul s (opt_of x ∷ os) ≡ fault
  unfolding check_opts on_opt copy_host
  overflow_step s (server (some arg)) host os e h = ground (arith, ap (λ o. o) e)
  overflow_step s (client (some arg)) host os e h = ground (arith, ap (λ o. o) e)
  overflow_step s (server none) host os e h = cc
  overflow_step s (client none) host os e h = cc
  overflow_step s (port text) host os e h = cc

  overflow_settings :
      (s : Startup) (xs : List Setting) (x : Setting) (host : List ℕ) (os : List Opt)
      → AllFitHost xs
      → host_of x ≡ some host
      → host_size ≤ length host
      → check_opts strtoul s (map opt_of xs ++ (opt_of x ∷ os)) ≡ fault
  overflow_settings s [] x host os a e h = overflow_step s x host os e h
  overflow_settings s (y ∷ ys) x host os (f, a) e h =
      settings_step s y (map opt_of ys ++ (opt_of x ∷ os)) f
      ∙ overflow_settings (chosen s (y ∷ [])) ys x host os a e h

  -- A host of 128 characters or more in -s or -c is copied over the end of its field.
  pub check_args_overflow :
      (xs : List Setting) (x : Setting) (host : List ℕ) (os : List Opt)
      → AllFitHost xs
      → host_of x ≡ some host
      → host_size ≤ length host
      → check_args strtoul (map opt_of xs ++ (opt_of x ∷ os)) ≡ fault
  unfolding check_args
  check_args_overflow xs x host os a e h = overflow_settings startup_default xs x host os a e h
