-- ===== src/Server/Options/Setting.antt =====
-- What it says that an option of the server is set by its letter.
use gnugol.Base.{ℕ, Bool, ◌||◌, ◌==◌, ◌≡◌}
use gnugol.Server.Options.{ServerOptions, set_option}

pub record Setting : Type 0 where
  pub letter : ℕ
  pub field : ServerOptions → Bool

abbrev pub setting : ℕ → (ServerOptions → Bool) → Setting
setting c f = record { letter = c; field = f }

abbrev pub Sets : Setting → Type 0
Sets s =
    (opt : ℕ) (o : ServerOptions) → s.field (set_option opt o) ≡ (s.field o || (opt == s.letter))
