-- ===== src/Ui/Headers.antt =====
-- ui/src/header_injection_widget.cpp: the widget with the headers to inject. An editor is its text.
use minimal_sip_proxy_sip_cl.Base.{
  ℕ, Bool, false, Option, none, some, List, [], ◌∷◌, Bytes, codes, Dict, lookup, insert,
  if◌then◌else◌, has_key,
}
use minimal_sip_proxy_sip_cl.Ui.Qt.{Qt}

-- kMethods
abbrev pub methods : List Bytes
methods =
    codes "REGISTER"
    ∷ codes "INVITE"
    ∷ codes "ACK"
    ∷ codes "BYE"
    ∷ codes "100"
    ∷ codes "180"
    ∷ codes "200"
    ∷ []

-- The height that the tabs may have: 16777215 is Qt's for no limit.
unfoldable pub tabs_height : Bool → ℕ
tabs_height checked = if checked then 16777215 else 0

module _ (q : Qt) where
  pub record HeaderInjectionWidget : Type 0 where
    pub checked : Bool
    pub tabs_visible : Bool
    pub tabs_maximum_height : ℕ
    pub editors : Dict q.QString

  -- The editors of these methods, empty, and those that are there.
  unfoldable pub build_tabs : List Bytes → Dict q.QString → Dict q.QString
  build_tabs [] editors = editors
  build_tabs (method ∷ later) editors = build_tabs later (insert editors method (q.text []))

  abbrev pub new_headers : HeaderInjectionWidget
  new_headers = record {
    checked = false;
    tabs_visible = false;
    tabs_maximum_height = 0;
    editors = build_tabs methods [];
  }

  abbrev pub on_toggle : Bool → HeaderInjectionWidget → HeaderInjectionWidget
  on_toggle checked w = record w {
    tabs_maximum_height = tabs_height checked;
    tabs_visible = checked;
  }

  text_or_empty : Option q.QString → q.QString
  text_or_empty none = q.text []
  text_or_empty (some t) = q.trimmed t

  unfoldable pub headers_for : Bytes → HeaderInjectionWidget → q.QString
  unfolding text_or_empty
  headers_for method w = text_or_empty (lookup w.editors method)

  abbrev pub is_enabled : HeaderInjectionWidget → Bool
  is_enabled w = w.checked

  -- One editor is copied where both widgets have it.
  copied : Bytes → Option q.QString → Dict q.QString → Dict q.QString
  copied method none to = to
  copied method (some t) to = if has_key to method then insert to method t else to

  unfoldable pub copy_editors : List Bytes → Dict q.QString → Dict q.QString → Dict q.QString
  unfolding copied
  copy_editors [] from to = to
  copy_editors (method ∷ later) from to =
      copy_editors later from (copied method (lookup from method) to)

  abbrev pub sync_to : HeaderInjectionWidget → HeaderInjectionWidget → HeaderInjectionWidget
  sync_to w other = record {
    checked = w.checked;
    tabs_visible = w.checked;
    tabs_maximum_height = tabs_height w.checked;
    editors = copy_editors methods w.editors other.editors;
  }

  -- The user checks or unchecks the box: `toggled` is emitted if that changes it.
  unfoldable pub set_checked : Bool → HeaderInjectionWidget → HeaderInjectionWidget
  set_checked checked w = on_toggle checked (record w { checked = checked })

  -- The user edits the headers of a method.
  abbrev pub edit : Bytes → q.QString → HeaderInjectionWidget → HeaderInjectionWidget
  edit method t w = record w { editors = insert w.editors method t }
