-- ===== src/Bot/Messages/Russian.antt =====
-- bot/app/localization/messages.py, `MESSAGES["ru"]`.
use ludora.Common.{List, [], ◌∷◌, Text}
use ludora.Bot.Messages.Table.{message}

unfoldable pub russian : List (Text × Text)
russian =
    message "welcome"
      "Добро пожаловать в Ludora.\n\nПросматривайте доступные цифровые товары и выбирайте игры."
    ∷ message "button.catalogue" "🛍 Открыть каталог"
    ∷ message "button.language" "🌐 Изменить язык"
    ∷ message "button.profile" "👤 Профиль"
    ∷ message "button.cart" "🛒 Корзина"
    ∷ message "button.orders" "📦 Мои заказы"
    ∷ message "button.order_details" "Заказ №{order_id}: подробнее"
    ∷ message "button.add_cart" "Добавить в корзину"
    ∷ message "button.view_cart" "Открыть корзину"
    ∷ message "button.continue_shopping" "Продолжить покупки"
    ∷ message "button.clear_cart" "Очистить корзину"
    ∷ message "button.checkout" "Создать заказ"
    ∷ message "button.pay" "Оплатить"
    ∷ message "button.check_payment" "Проверить статус оплаты"
    ∷ message "button.confirm" "Подтвердить"
    ∷ message "button.cancel" "Отмена"
    ∷ message "button.english" "English"
    ∷ message "button.russian" "Русский"
    ∷ message "button.details" "Подробнее"
    ∷ message "button.previous" "‹ Назад"
    ∷ message "button.next" "Вперёд ›"
    ∷ message "button.back" "‹ Назад в каталог"
    ∷ message "language.choose" "Выберите язык:"
    ∷ message "language.changed" "Язык изменён на русский."
    ∷ message "catalogue.title" "<b>Каталог товаров</b>"
    ∷ message "catalogue.page" "Страница {page}"
    ∷ message "field.platform" "Платформа"
    ∷ message "field.type" "Тип"
    ∷ message "field.price" "Цена"
    ∷ message "field.description" "Описание"
    ∷ message "field.categories" "Категории"
    ∷ message "description.missing" "Описание отсутствует."
    ∷ message "categories.missing" "Категории не указаны."
    ∷ message "description.truncated" "… [сокращено]"
    ∷ message "catalogue.empty" "Каталог пока пуст."
    ∷ message "error.unavailable" "Ludora временно недоступна. Попробуйте ещё раз позже."
    ∷ message "error.timeout" "Время ожидания ответа Ludora истекло. Попробуйте ещё раз."
    ∷ message "error.invalid_response" "Ludora вернула некорректный ответ. Попробуйте позже."
    ∷ message "error.not_found" "Этот товар больше недоступен."
    ∷ message "error.invalid_callback" "Эта кнопка недействительна или устарела."
    ∷ message "error.internal" "Что-то пошло не так. Попробуйте ещё раз позже."
    ∷ message "error.auth_failed" "Не удалось войти в Ludora. Попробуйте ещё раз позже."
    ∷ message "error.auth_expired" "Срок действия сессии истёк. Попробуйте ещё раз."
    ∷ message "error.validation" "Это действие с корзиной недоступно."
    ∷ message "error.conflict" "Корзина изменилась. Проверьте её и попробуйте снова."
    ∷ message "error.resource_not_found" "Этой позиции больше нет в корзине."
    ∷ message "error.permission" "У вас нет доступа к этой корзине."
    ∷ message "error.missing_user" "Данные пользователя Telegram недоступны. Попробуйте ещё раз."
    ∷ message "profile.title" "<b>Ваш профиль</b>"
    ∷ message "profile.name" "<b>Имя:</b> {value}"
    ∷ message "profile.email" "<b>Email:</b> {value}"
    ∷ message "profile.username" "<b>Telegram:</b> {value}"
    ∷ message "profile.language" "<b>Язык:</b> {value}"
    ∷ message "profile.registered" "<b>Дата регистрации:</b> {value}"
    ∷ message "profile.name_missing" "Не указано"
    ∷ message "command.start" "Открыть меню Ludora"
    ∷ message "command.catalogue" "Просмотреть каталог товаров"
    ∷ message "command.profile" "Показать профиль Ludora"
    ∷ message "command.cart" "Показать корзину"
    ∷ message "command.orders" "Показать историю заказов"
    ∷ message "orders.title" "<b>Мои заказы</b>"
    ∷ message "orders.empty" "У вас пока нет заказов."
    ∷ message "orders.id" "<b>Заказ:</b> №{value}"
    ∷ message "orders.status" "<b>Статус:</b> {value}"
    ∷ message "orders.created" "<b>Создан:</b> {value}"
    ∷ message "orders.items" "<b>Товаров:</b> {value}"
    ∷ message "orders.total" "<b>Итого:</b> {value}"
    ∷ message "orders.not_found" "Этот заказ больше не существует."
    ∷ message "order_detail.title" "<b>Заказ №{order_id}</b>"
    ∷ message "order_detail.products" "<b>Товары</b>"
    ∷ message "order_detail.item" "{title}\n{quantity} × {unit_price} — {line_total}"
    ∷ message "order_detail.payments" "<b>Информация об оплате</b>"
    ∷ message "order_detail.payment"
        "Статус: {status}\nПровайдер: {provider}\nТранзакция: {transaction_id}\nСумма: {amount}"
    ∷ message "order_detail.no_payments" "Информация об оплате отсутствует."
    ∷ message "order_detail.license_keys" "<b>Лицензионные ключи</b>"
    ∷ message "cart.title" "<b>Ваша корзина</b>"
    ∷ message "cart.empty" "Ваша корзина пуста."
    ∷ message "cart.item" "<b>{title}</b>\n{quantity} × {unit_price} = {line_total}"
    ∷ message "cart.quantity" "<b>Всего товаров:</b> {quantity}"
    ∷ message "cart.total" "<b>Итого:</b> {total}"
    ∷ message "cart.added" "Товар добавлен в корзину."
    ∷ message "cart.clear_confirm" "Удалить все товары из корзины?"
    ∷ message "cart.checkout_confirm" "Создать заказ из текущей корзины?"
    ∷ message "cart.cleared" "Корзина очищена."
    ∷ message "checkout.success" "<b>Заказ {order_number} создан</b>"
    ∷ message "checkout.item" "{title} × {quantity} — {line_total}"
    ∷ message "checkout.total" "<b>Сумма заказа:</b> {total}"
    ∷ message "payment.created"
        "<b>Платёж создан</b>\nСумма: {amount}\nСтатус: {status}\n\nИспользуйте кнопку ниже, чтобы завершить оплату."
    ∷ message "payment.pending" "<b>Статус платежа:</b> {status}\nПлатёж ещё не завершён."
    ∷ message "payment.completed" "<b>Платёж успешно завершён!</b>"
    ∷ message "payment.missing" "Информация о платеже пока недоступна."
    ∷ message "type.GAME" "Игра"
    ∷ message "type.DLC" "Дополнение"
    ∷ message "type.SUBSCRIPTION" "Подписка"
    ∷ message "type.GIFT_CARD" "Подарочная карта"
    ∷ message "type.SOFTWARE" "Программа"
    ∷ []
