-- ===== src/Server/Options/Sources.antt =====
-- The letters of the options that say the sources, the sending and the format.
use gnugol.Base.{arith}
use gnugol.Server.Options.{set_option}
use gnugol.Server.Options.Setting.{Sets, setting}

pub lucky_set : Sets (setting b'l' (λ o. o.lucky))
unfolding set_option
lucky_set opt o = ground arith

pub multicast_set : Sets (setting b'm' (λ o. o.multicast))
unfolding set_option
multicast_set opt o = ground arith

pub broadcast_set : Sets (setting b'b' (λ o. o.broadcast))
unfolding set_option
broadcast_set opt o = ground arith

pub cache_set : Sets (setting b'c' (λ o. o.cache))
unfolding set_option
cache_set opt o = ground arith

pub output_set : Sets (setting b'o' (λ o. o.output))
unfolding set_option
output_set opt o = ground arith

pub offline_set : Sets (setting b'O' (λ o. o.offline))
unfolding set_option
offline_set opt o = ground arith

pub force_set : Sets (setting b'f' (λ o. o.force))
unfolding set_option
force_set opt o = ground arith

pub secure_set : Sets (setting b'S' (λ o. o.secure))
unfolding set_option
secure_set opt o = ground arith

pub html_set : Sets (setting b'H' (λ o. o.html))
unfolding set_option
html_set opt o = ground arith

pub xml_set : Sets (setting b'X' (λ o. o.xml))
unfolding set_option
xml_set opt o = ground arith
