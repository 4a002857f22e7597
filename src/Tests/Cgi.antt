-- ===== src/Tests/Cgi.antt =====
-- src/clients/gnugol_cgi.c at concrete inputs.
use gnugol.Base.{◌≡◌, refl, true, false, none, codes, eq_bytes}
use gnugol.Cgi.Config.{LostOptions}
use gnugol.Cgi.{Cgi, prints_twice, bit_or}
use gnugol.Base.{pos}
use gnugol.Udp.{Network}

abbrev page : Cgi
page = record {
  form = λ name. codes "free software";
  clicked = λ name. eq_bytes name (codes "btnG");
  ticked = λ name. false;
  script_name = codes "/cgi-bin/gnugol.cgi";
  html_escape = λ text. text;
  value_escape = λ text. text;
}

abbrev silent : Network
silent = record { connects = λ host. true; reply = λ host query. none }

abbrev lost : LostOptions
lost = record { xml = false; html = false; lucky = false; dummy = false }

config_not_clicked : page.clicked (codes "config") ≡ false
unfolding eq_bytes
config_not_clicked = refl

search_clicked : page.clicked (codes "btnG") ≡ true
unfolding eq_bytes
search_clicked = refl

seven_is_twice : prints_twice (pos 28) (pos 0) ≡ true
unfolding prints_twice bit_or
seven_is_twice = refl

one_is_once : prints_twice (pos 1) (pos 0) ≡ false
unfolding prints_twice bit_or
one_is_once = refl
