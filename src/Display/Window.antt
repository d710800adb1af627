-- ===== src/Display/Window.antt =====
-- The window of the GUD display, src/usb_gud_display/gud_display_window.c. What the calls of SDL return is an
-- argument.
use usbip_server.Prelude.{
  ℕ, ◌+◌, ◌-◌, ◌≡◌, refl, Bool, true, false, not, ◌&&◌, Option, none, some, List, [], ◌∷◌, arith,
  if◌then◌else◌, if_split,
}

-- Whether `window`, `renderer` and `texture` are set, and `display_width`; how many of each SDL has
-- created and not destroyed; whether SDL runs; and what was presented last, `none` for black.
pub record Window : Type 0 where
  pub window : Bool
  pub renderer : Bool
  pub texture : Bool
  pub display_width : ℕ
  pub windows : ℕ
  pub renderers : ℕ
  pub textures : ℕ
  pub running : Bool
  pub presented : Option (List ℕ)

-- The variables as they start.
abbrev pub no_window : Window
no_window = record {
  window = false;
  renderer = false;
  texture = false;
  display_width = 0;
  windows = 0;
  renderers = 0;
  textures = 0;
  running = false;
  presented = none;
}

-- Which of SDL_Init, SDL_CreateWindow, SDL_CreateRenderer and SDL_CreateTexture succeed.
pub record Sdl : Type 0 where
  pub init : Bool
  pub create_window : Bool
  pub create_renderer : Bool
  pub create_texture : Bool

abbrev pub created : Bool → ℕ → ℕ
created ok n = if ok then n + 1 else n

abbrev pub destroyed : Bool → ℕ → ℕ
destroyed is_set n = if is_set then n - 1 else n

-- `gud_display_window_close`
unfoldable pub gud_display_window_close : Window → Window
gud_display_window_close w = record w {
  texture = false;
  textures = destroyed w.texture w.textures;
  renderer = false;
  renderers = destroyed w.renderer w.renderers;
  window = false;
  windows = destroyed w.window w.windows;
  running = false;
}

-- `gud_display_window_show`; `pixels` is `none` for NULL.
unfoldable pub gud_display_window_show : Option (List ℕ) → Bool → Window → Window
gud_display_window_show pixels display_on w =
    if not w.renderer then w else record w { presented = if display_on then pixels else none }

-- The three objects, each only if the one before it is there.
unfoldable pub create : Sdl → Window → Window
create o w =
    let renderer' = o.create_window && o.create_renderer in
    let texture' = renderer' && o.create_texture in
    record w {
      window = o.create_window;
      windows = created o.create_window w.windows;
      renderer = renderer';
      renderers = created renderer' w.renderers;
      texture = texture';
      textures = created texture' w.textures;
      running = true;
    }

-- `gud_display_window_open`
unfoldable pub gud_display_window_open : Sdl → ℕ → Window → Bool × Window
unfolding create gud_display_window_close gud_display_window_show
gud_display_window_open o width w =
    let w' = create o w in
    if not o.init
    then (false, w)
    else if not w'.texture
    then (false, gud_display_window_close w')
    else (true, gud_display_window_show none false (record w' { display_width = width }))

-- `gud_display_window_handle_events`: the events that it takes, as whether each is SDL_EVENT_QUIT.
unfoldable pub gud_display_window_handle_events : List Bool → Bool
gud_display_window_handle_events [] = true
gud_display_window_handle_events (quit ∷ events) =
    let rest = gud_display_window_handle_events events in if quit then false else rest

-- The calls of the main loop, and the end of the program.
unfoldable pub show_all : List (List ℕ × Bool) → Window → Window
unfolding gud_display_window_show
show_all [] w = w
show_all ((pixels, display_on) ∷ frames) w =
    show_all frames (gud_display_window_show (some pixels) display_on w)

unfoldable pub use_window : Sdl → ℕ → List (List ℕ × Bool) → Window
unfolding gud_display_window_open show_all gud_display_window_close
use_window o width frames =
    let (opened, w) = gud_display_window_open o width no_window in
    if opened then gud_display_window_close (show_all frames w) else w

-- SDL holds what the variables hold.
abbrev Owns : Window → Type 0
Owns w =
    (w.windows ≡ created w.window 0)
    × (w.renderers ≡ created w.renderer 0)
    × (w.textures ≡ created w.texture 0)

abbrev Gone : Window → Type 0
Gone w = (w.windows ≡ 0) × (w.renderers ≡ 0) × (w.textures ≡ 0) × (w.running ≡ false)

given_back : (is_set : Bool) {n : ℕ} → n ≡ created is_set 0 → destroyed is_set n ≡ 0
given_back true e = omega arith
given_back false e = e

close-Gone : (w : Window) → Owns w → Gone (gud_display_window_close w)
unfolding gud_display_window_close
close-Gone w (windows, renderers, textures) = (
  given_back w.window windows,
  given_back w.renderer renderers,
  given_back w.texture textures,
  refl,
)

show-Owns :
    (pixels : Option (List ℕ)) (display_on : Bool) (w : Window)
    → Owns w
    → Owns (gud_display_window_show pixels display_on w)
unfolding gud_display_window_show
show-Owns pixels display_on w h = if_split {A = Window} Owns (not w.renderer) (λ _. h) (λ _. h)

show_all-Owns : (frames : List (List ℕ × Bool)) (w : Window) → Owns w → Owns (show_all frames w)
unfolding show_all
show_all-Owns [] w h = h
show_all-Owns ((pixels, display_on) ∷ frames) w h =
    show_all-Owns frames (gud_display_window_show (some pixels) display_on w)
      (show-Owns (some pixels) display_on w h)

create-Owns : (o : Sdl) → Owns (create o no_window)
unfolding create
create-Owns o = (refl, refl, refl)

-- Whichever call of SDL fails while the window is opened, and whatever is shown in it before it is closed,
-- in the end each object that SDL created is destroyed and SDL is shut down.
pub use_window-Gone :
    (o : Sdl) (width : ℕ) (frames : List (List ℕ × Bool)) → Gone (use_window o width frames)
unfolding use_window gud_display_window_open
use_window-Gone o width frames =
    if_split {A = Bool × Window} Ends (not o.init) (λ _. (refl, refl, refl, refl))
      (λ _.
        if_split {A = Bool × Window} Ends (not (create o no_window).texture)
          (λ _. close-Gone (create o no_window) (create-Owns o))
          (λ _.
            let black = gud_display_window_show none false ready in
            close-Gone (show_all frames black)
              (show_all-Owns frames black (show-Owns none false ready (create-Owns o)))))
  where
    ready : Window
    ready = record (create o no_window) { display_width = width }

    Ends : Bool × Window → Type 0
    Ends r = Gone (if r.0 then gud_display_window_close (show_all frames r.1) else r.1)
