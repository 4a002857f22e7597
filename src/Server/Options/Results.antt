-- ===== src/Server/Options/Results.antt =====
-- The letters of the options that say what results are asked for and where they come from.
use gnugol.Base.{arith}
use gnugol.Server.Options.{set_option}
use gnugol.Server.Options.Setting.{Sets, setting}

pub urls_set : Sets (setting b'u' (λ o. o.urls))
unfolding set_option
urls_set opt o = ground arith

pub snippets_set : Sets (setting b's' (λ o. o.snippets))
unfolding set_option
snippets_set opt o = ground arith

pub ads_set : Sets (setting b'a' (λ o. o.ads))
unfolding set_option
ads_set opt o = ground arith

pub json_set : Sets (setting b'j' (λ o. o.json))
unfolding set_option
json_set opt o = ground arith

pub titles_set : Sets (setting b't' (λ o. o.titles))
unfolding set_option
titles_set opt o = ground arith

pub engine_set : Sets (setting b'e' (λ o. o.engine))
unfolding set_option
engine_set opt o = ground arith

pub reg_set : Sets (setting b'R' (λ o. o.reg))
unfolding set_option
reg_set opt o = ground arith

pub input_set : Sets (setting b'i' (λ o. o.input))
unfolding set_option
input_set opt o = ground arith

pub prime_set : Sets (setting b'P' (λ o. o.prime))
unfolding set_option
prime_set opt o = ground arith

pub plugin_set : Sets (setting b'p' (λ o. o.plugin))
unfolding set_option
plugin_set opt o = ground arith
