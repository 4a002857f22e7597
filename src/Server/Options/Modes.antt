-- ===== src/Server/Options/Modes.antt =====
-- The letters of the options that say how the server runs.
use gnugol.Base.{arith}
use gnugol.Server.Options.{set_option}
use gnugol.Server.Options.Setting.{Sets, setting}

pub help_set : Sets (setting b'h' (λ o. o.help))
unfolding set_option
help_set opt o = ground arith

pub longhelp_set : Sets (setting b'L' (λ o. o.longhelp))
unfolding set_option
longhelp_set opt o = ground arith

pub verbose_set : Sets (setting b'v' (λ o. o.verbose))
unfolding set_option
verbose_set opt o = ground arith

pub trust_set : Sets (setting b'T' (λ o. o.trust))
unfolding set_option
trust_set opt o = ground arith

pub debug_set : Sets (setting b'd' (λ o. o.debug))
unfolding set_option
debug_set opt o = ground arith

pub dummy_set : Sets (setting b'D' (λ o. o.dummy))
unfolding set_option
dummy_set opt o = ground arith

pub dontfork_set : Sets (setting b'F' (λ o. o.dontfork))
unfolding set_option
dontfork_set opt o = ground arith

pub reverselookup_set : Sets (setting b'r' (λ o. o.reverselookup))
unfolding set_option
reverselookup_set opt o = ground arith
