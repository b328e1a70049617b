-- ===== src/Dashboard/Handlers/Pages.antt =====
-- The handlers of health (cmd/dashboard/handlers.go) and of pages from other servers
-- (cmd/dashboard/external_page_handler.go). `find_cache` looks a page's cache up, and gives its `Get`.
use ship_status_dash.Base.{String, Bytes, Option, Exec, pure, require, or_raise, ◌>>=◌}
use ship_status_dash.Env.{Error}
use ship_status_dash.Dashboard.Services.{Services, read_clock}
use ship_status_dash.Dashboard.Pages.Script.{inject_resize_script}
use ship_status_dash.Dashboard.Handlers.Http.{Handler, respond_with_error, health, html}

module _ {S : Type 0} (v : Services S) where
  unfoldable pub health_json : Handler S
  health_json r = do now ← read_clock v; pure (record { status_code = 200; body = health now })

module _ {S : Type 0} (find_cache : String → Option (Exec S Error Bytes)) where
  unfoldable pub get_external_page_html : Handler S
  get_external_page_html r = do
    get ← require (find_cache r.page_slug) (respond_with_error 404 "External page not found")
    content ← or_raise get (λ e. respond_with_error 502 "Failed to fetch external page")
    pure (record { status_code = 200; body = html (inject_resize_script content) })
