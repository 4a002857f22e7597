-- ===== src/Server/Dummy.antt =====
-- The server with `-D`, from its command line on.
use gnugol.Base.{
  ℕ, ◌≡◌, refl, ap, ◌∙◌, true, false, not, ◌&&◌, some, List, [], if◌then◌else◌, Bytes, ok, All,
}
use gnugol.Server.Loop.{
  Exchange, Event, Reply, dummy_answer, answer_to, serve, running, runs, server_main, start_server,
}
use gnugol.Server.Options.Modes.{dummy_set, verbose_set, help_set, longhelp_set}
use gnugol.Server.Options.Setting.{setting}
use gnugol.Server.Options.Settings.{is_given, set_options_lem}
use gnugol.Server.Options.{ServerOptions, no_options, set_options, server_process_options}
use gnugol.Server.Replies.{Fits, replies, serve-replies}

abbrev pub start : ServerOptions
start = record no_options { ipv6 = true }

process-kept :
    (opts : List ℕ) (o : ServerOptions)
    → (set_options opts o).help ≡ false
    → (set_options opts o).longhelp ≡ false
    → server_process_options opts o ≡ some (set_options opts o)
unfolding server_process_options
process-kept opts o h l = simp (h, l)

-- Without `-h` and `-L` the options are kept.
pub kept_options :
    (opts : List ℕ)
    → is_given b'h' opts ≡ false
    → is_given b'L' opts ≡ false
    → server_process_options opts start ≡ some (set_options opts start)
kept_options opts h l =
    process-kept opts start (set_options_lem (setting b'h' (λ p. p.help)) opts start help_set ∙ h)
      (set_options_lem (setting b'L' (λ p. p.longhelp)) opts start longhelp_set ∙ l)

serve_options :
    {Address : Type 0} (gscrape : Bytes → Bytes) (size : ℕ) (opts : List ℕ)
    (events : List (Event Address)) (o : ServerOptions) (after : Exchange)
    (out : List (Reply Address))
    → server_process_options opts start ≡ some o
    → serve gscrape size o events (record { query = []; answer = [] }) ≡ ok (after, out)
    → server_main gscrape size true opts events ≡ ok (running after out)
unfolding server_main start_server runs
serve_options gscrape size opts events o after out kept run =
    ap (λ p. start_server gscrape size true p events) kept ∙ rw run refl

dummy_answers :
    {Address : Type 0} (gscrape : Bytes → Bytes) (o : ServerOptions) (events : List (Event Address))
    → o.dummy ≡ true
    → replies (answer_to gscrape o) events ≡ replies (λ query. dummy_answer) events
unfolding answer_to
dummy_answers gscrape o events on =
    ap (λ b. replies (λ query. if b then dummy_answer else gscrape query) events) on

-- Started with `-D` and without `-v`, `-h` and `-L`, in whatever order the options stand, and with a
-- socket, the server answers the packets, if its arrays take them all, with the fixed answer, once each and
-- in order, whatever the plugin does.
pub server_main-dummy :
    {Address : Type 0} (gscrape : Bytes → Bytes) (size : ℕ) (opts : List ℕ)
    (events : List (Event Address))
    → is_given b'D' opts ≡ true
    → is_given b'v' opts ≡ false
    → is_given b'h' opts ≡ false
    → is_given b'L' opts ≡ false
    → All (Fits size) events
    → (after : Exchange) × (server_main gscrape size true opts events
        ≡ ok (running after (replies (λ query. dummy_answer) events)))
server_main-dummy gscrape size opts events d v h l fits =
    let o : ServerOptions = set_options opts start in
    let on : o.dummy ≡ true =
      set_options_lem (setting b'D' (λ p. p.dummy)) opts start dummy_set ∙ d in
    let quiet : o.verbose ≡ false =
      set_options_lem (setting b'v' (λ p. p.verbose)) opts start verbose_set ∙ v in
    let (after, run) =
      serve-replies gscrape size o events (record { query = []; answer = [] })
        (ap (λ b. b && o.debug && not o.reverselookup) quiet) fits in
    (
      after,
      serve_options gscrape size opts events o after (replies (answer_to gscrape o) events)
            (kept_options opts h l) run
          ∙ ap (λ out. ok (running after out)) (dummy_answers gscrape o events on),
    )
