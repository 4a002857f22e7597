-- ===== src/Server/Options/Settings.antt =====
-- Every option of the server is set by its letter, wherever that stands.
use gnugol.Base.{
  ℕ, Bool, true, false, ◌||◌, none, some, List, [], ◌∷◌, ◌==◌, if◌then◌else◌, ◌≡◌, refl, All, ◌∙◌,
  ap,
}
use gnugol.Server.Options.Setting.{Setting, setting, Sets}
use gnugol.Server.Options.Results.{
  urls_set, snippets_set, ads_set, json_set, titles_set, engine_set, reg_set, input_set, prime_set,
  plugin_set,
}
use gnugol.Server.Options.Sources.{
  lucky_set, multicast_set, broadcast_set, cache_set, output_set, offline_set, force_set,
  secure_set, html_set, xml_set,
}
use gnugol.Server.Options.Modes.{
  help_set, longhelp_set, verbose_set, trust_set, debug_set, dummy_set, dontfork_set,
  reverselookup_set,
}
use gnugol.Server.Options.{ServerOptions, set_option, set_options, server_process_options}

-- The letters and the options that they set.
abbrev pub settings : List Setting
settings =
    setting b'u' (λ o. o.urls)
    ∷ setting b's' (λ o. o.snippets)
    ∷ setting b'a' (λ o. o.ads)
    ∷ setting b'j' (λ o. o.json)
    ∷ setting b't' (λ o. o.titles)
    ∷ setting b'e' (λ o. o.engine)
    ∷ setting b'R' (λ o. o.reg)
    ∷ setting b'i' (λ o. o.input)
    ∷ setting b'P' (λ o. o.prime)
    ∷ setting b'p' (λ o. o.plugin)
    ∷ setting b'l' (λ o. o.lucky)
    ∷ setting b'm' (λ o. o.multicast)
    ∷ setting b'b' (λ o. o.broadcast)
    ∷ setting b'c' (λ o. o.cache)
    ∷ setting b'o' (λ o. o.output)
    ∷ setting b'O' (λ o. o.offline)
    ∷ setting b'f' (λ o. o.force)
    ∷ setting b'S' (λ o. o.secure)
    ∷ setting b'H' (λ o. o.html)
    ∷ setting b'X' (λ o. o.xml)
    ∷ setting b'h' (λ o. o.help)
    ∷ setting b'L' (λ o. o.longhelp)
    ∷ setting b'v' (λ o. o.verbose)
    ∷ setting b'T' (λ o. o.trust)
    ∷ setting b'd' (λ o. o.debug)
    ∷ setting b'D' (λ o. o.dummy)
    ∷ setting b'F' (λ o. o.dontfork)
    ∷ setting b'r' (λ o. o.reverselookup)
    ∷ []

settings_set : All Sets settings
settings_set = (
  urls_set,
  (
    snippets_set,
    (
      ads_set,
      (
        json_set,
        (
          titles_set,
          (
            engine_set,
            (
              reg_set,
              (
                input_set,
                (
                  prime_set,
                  (
                    plugin_set,
                    (
                      lucky_set,
                      (
                        multicast_set,
                        (
                          broadcast_set,
                          (
                            cache_set,
                            (
                              output_set,
                              (
                                offline_set,
                                (
                                  force_set,
                                  (
                                    secure_set,
                                    (
                                      html_set,
                                      (
                                        xml_set,
                                        (
                                          help_set,
                                          (
                                            longhelp_set,
                                            (
                                              verbose_set,
                                              (
                                                trust_set,
                                                (
                                                  debug_set,
                                                  (
                                                    dummy_set,
                                                    (dontfork_set, (reverselookup_set, tt)),
                                                  ),
                                                ),
                                              ),
                                            ),
                                          ),
                                        ),
                                      ),
                                    ),
                                  ),
                                ),
                              ),
                            ),
                          ),
                        ),
                      ),
                    ),
                  ),
                ),
              ),
            ),
          ),
        ),
      ),
    ),
  ),
)

-- A letter stands among those that `getopt_long` returned.
unfoldable pub is_given : ℕ → List ℕ → Bool
is_given c [] = false
is_given c (opt ∷ opts) = (opt == c) || is_given c opts

or_assoc : (a b c : Bool) → ((a || b) || c) ≡ (a || (b || c))
or_assoc true b c = refl
or_assoc false b c = refl

or_false : (a : Bool) → a ≡ (a || false)
or_false true = refl
or_false false = refl

pub set_options_lem :
    (s : Setting) (opts : List ℕ) (o : ServerOptions)
    → Sets s
    → s.field (set_options opts o) ≡ (s.field o || is_given s.letter opts)
unfolding set_options is_given
set_options_lem s [] o h = or_false (s.field o)
set_options_lem s (opt ∷ opts) o h =
    set_options_lem s opts (set_option opt o) h
    ∙ ap (λ b. b || is_given s.letter opts) (h opt o)
    ∙ or_assoc (s.field o) (opt == s.letter) (is_given s.letter opts)

all_settings :
    (ss : List Setting) (opts : List ℕ) (o : ServerOptions)
    → All Sets ss
    → All (λ s. s.field (set_options opts o) ≡ (s.field o || is_given s.letter opts)) ss
all_settings [] opts o h = tt
all_settings (s ∷ ss) opts o h = (set_options_lem s opts o h.0, all_settings ss opts o h.1)

-- Whatever `getopt_long` returns, in whatever order, each of the 28 options is set afterwards
-- exactly if it was before or its letter is among what was returned; `usage` exits where `-h` or
-- `-L` set its option.
pub server_process_options-settings :
    (opts : List ℕ) (o : ServerOptions)
    → (set : ServerOptions) × All
        (λ s. s.field set ≡ (s.field o || is_given s.letter opts))
        settings
      × (server_process_options opts o ≡ (if set.help || set.longhelp then none else some set))
unfolding server_process_options
server_process_options-settings opts o =
    (set_options opts o, all_settings settings opts o settings_set, refl)
