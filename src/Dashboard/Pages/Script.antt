-- ===== src/Dashboard/Pages/Script.antt =====
-- The script that a page gets (`injectResizeScript`, cmd/dashboard/external_page_handler.go).
use ship_status_dash.Base.{
  ◌≡◌, refl, Option, none, some, ◌++◌, Bytes, ascii, split_last, SplitsAt, split_last-SplitsAt,
  Absent, IsLast, ◌⊎◌, inl, inr,
}

abbrev pub resize_script : Bytes
resize_script =
    ascii
      "<script>window.addEventListener('load',function(){setTimeout(function(){window.dispatchEvent(new Event('resize'))},100)})</script>"

abbrev pub body_end : Bytes
body_end = ascii "</body>"

abbrev insert_script : Bytes → Option (Bytes × Bytes) → Bytes
insert_script content (some (before, after)) = before ++ (resize_script ++ after)
insert_script content none = content ++ resize_script

unfoldable pub inject_resize_script : Bytes → Bytes
inject_resize_script content = insert_script content (split_last body_end content)

-- A page with the script in front of the last end of its body, or at its end where it has none.
abbrev pub HasScript : Bytes → Bytes → Type 0
HasScript content page =
    ((before : Bytes) × (after : Bytes) × (before ++ after ≡ content)
      × IsLast body_end after
      × (page ≡ before ++ (resize_script ++ after)))
    ⊎ (Absent body_end content × (page ≡ content ++ resize_script))

-- The script is inserted in front of the last `</body>` of a page, or appended to a page that has none,
-- and the page is otherwise as it was.
pub inject_resize_script-HasScript :
    (content : Bytes) → HasScript content (inject_resize_script content)
unfolding inject_resize_script SplitsAt
inject_resize_script-HasScript content =
    go (split_last body_end content) (split_last-SplitsAt body_end content)
  where
    go :
        (o : Option (Bytes × Bytes))
        → SplitsAt body_end content o
        → HasScript content (insert_script content o)
    go (some (before, after)) h = inl (before, after, h.0, h.1, refl)
    go none h = inr (h, refl)
